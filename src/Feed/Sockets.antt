-- ===== src/Feed/Sockets.antt =====
-- [FEED]/feed.c: the socket, and the loop that serves its clients.
use hail2_repos.Prelude.{
  ℕ, zero, suc, ◌-◌, Bool, true, false, not, ◌||◌, Option, none, some, [], ◌∷◌, ◌++◌, ℤ, pos,
  minus_one, Text, codes, c_string, ◌==◌, if◌then◌else◌,
}
use hail2_repos.Kernel.{
  System, Answer, done, failed, M, pure, call, emit, complain, made_directory, unlinked, ◌>>=◌,
  ◌>>◌,
}
use hail2_repos.Kernel.Errno.{eagain, eintr, eexist}
use hail2_repos.Image.{lift}
use hail2_repos.Feed.Commands.{Session, within, feed_reply, feed_command}

abbrev pub feed_dir : Text
feed_dir = codes "/run/hinit"

abbrev pub feed_socket : Text
feed_socket = codes "/run/hinit/feed.sock"

abbrev pub feed_backlog : ℕ
feed_backlog = 8

abbrev pub feed_buffer : ℕ
feed_buffer = 256

-- The calls on sockets, with the outside of System.
pub record Sockets (W : Type 0) : Type 0 where
  pub getfl : ℕ → W → Answer ℕ × W
  pub setfl_nonblock : ℕ → ℕ → W → Answer (Unit {0}) × W  -- with the flags before
  pub socket : W → Answer ℕ × W
  pub bind : ℕ → Text → W → Answer (Unit {0}) × W
  pub listen : ℕ → ℕ → W → Answer (Unit {0}) × W
  pub accept : ℕ → W → Answer ℕ × W
  pub recv : ℕ → ℕ → W → Answer Text × W  -- at most so many bytes
  pub close : ℕ → W → W

module _ {W A : Type 0} where
  -- a call of the system
  abbrev pub outer : (W → A × W) → M (Session W) A
  outer f = within (lift (call f))

module _ {W : Type 0} where
  abbrev pub set_fd : Option ℕ → M (Session W) (Unit {0})
  set_fd fd s = (tt, record s { feed_fd = fd })

module _ {W : Type 0} (os : System W) (net : Sockets W) where
  abbrev pub close_fd : ℕ → M (Session W) (Unit {0})
  close_fd fd = outer (λ w. (tt, net.close fd w))

  -- perror
  abbrev pub feed_perror : Text → ℕ → M (Session W) (Unit {0})
  feed_perror text e = within (lift (complain (text ++ (codes ": " ++ (os.strerror e ++ 10 ∷ [])))))

  -- `failed` stands for the result -1, with errno
  pub flags_got : ℕ → Answer ℕ → M (Session W) (Answer (Unit {0}))
  flags_got fd (failed e) = pure (failed e)
  flags_got fd (done flags) = outer (net.setfl_nonblock fd flags)

  pub feed_set_nonblock : ℕ → M (Session W) (Answer (Unit {0}))
  feed_set_nonblock fd = do r ← outer (net.getfl fd); flags_got fd r

  -- the failures of feed_prepare after socket
  pub give_up_socket : Text → ℕ → ℕ → M (Session W) ℤ
  give_up_socket text fd e = do feed_perror text e; close_fd fd; set_fd none; pure minus_one

  pub listening : ℕ → Answer (Unit {0}) → M (Session W) ℤ
  listening fd (failed e) = give_up_socket (codes "hinit: feed listen") fd e
  listening fd (done _) = do within (lift (complain (codes "hinit: feed ready\n"))); pure (pos 0)

  pub bound : ℕ → Answer (Unit {0}) → M (Session W) ℤ
  bound fd (failed e) = give_up_socket (codes "hinit: feed bind") fd e
  bound fd (done _) = do r ← outer (net.listen fd feed_backlog); listening fd r

  pub nonblocking : ℕ → Answer (Unit {0}) → M (Session W) ℤ
  nonblocking fd (failed e) = give_up_socket (codes "hinit: feed nonblock") fd e
  nonblocking fd (done _) = do r ← outer (net.bind fd feed_socket); bound fd r

  pub socket_made : Answer ℕ → M (Session W) ℤ
  socket_made (failed e) = do
    set_fd none
    feed_perror (codes "hinit: feed socket") e
    pure minus_one
  socket_made (done fd) = do set_fd (some fd); r ← feed_set_nonblock fd; nonblocking fd r

  pub unlink_noted : Answer (Unit {0}) → M (Session W) (Unit {0})
  unlink_noted (done _) = within (lift (emit (unlinked feed_socket)))
  unlink_noted (failed e) = pure tt

  pub make_socket : M (Session W) ℤ
  make_socket = do
    r ← outer (os.unlink feed_socket)
    unlink_noted r
    fd ← outer net.socket
    socket_made fd

  pub directory_made : Answer (Unit {0}) → M (Session W) ℤ
  directory_made (done _) = do within (lift (emit (made_directory feed_dir))); make_socket
  directory_made (failed e) =
      if not (e == eexist)
      then (do feed_perror (codes "hinit: feed mkdir") e; pure minus_one)
      else make_socket

  pub feed_prepare : M (Session W) ℤ
  feed_prepare = do
    within (lift (complain (codes "hinit: preparing feed socket\n")))
    r ← outer (os.mkdir feed_dir 0o755)
    directory_made r

  -- what recv gave: a command, the end of the connection, or an error
  pub received : ℕ → Answer Text → M (Session W) (Unit {0})
  received client (failed e) =
      if e == eagain || e == eintr
      then close_fd client
      else (do feed_reply (codes "ERR receive failed\n"); close_fd client)
  received client (done []) = close_fd client
  received client (done (c ∷ cs)) = do feed_command os (c_string (c ∷ cs)); close_fd client

  pub client_ready : ℕ → Answer (Unit {0}) → M (Session W) (Unit {0})
  client_ready client (failed e) = do
    feed_reply (codes "ERR client setup failed\n")
    close_fd client
  client_ready client (done _) = do r ← outer (net.recv client (feed_buffer - 1)); received client r

  -- one round of the loop; `again` is the next one
  pub accepted : M (Session W) Bool → Answer ℕ → M (Session W) Bool
  accepted again (failed e) =
      if e == eagain
      then pure true
      else if e == eintr
      then again
      else (do feed_perror (codes "hinit: feed accept") e; pure true)
  accepted again (done client) = do r ← feed_set_nonblock client; client_ready client r; again

  -- at most so many rounds of the loop: true when it was left
  pub feed_rounds : ℕ → ℕ → M (Session W) Bool
  feed_rounds zero fd = pure false
  feed_rounds (suc rounds) fd = do r ← outer (net.accept fd); accepted (feed_rounds rounds fd) r

  pub loop_from : ℕ → Option ℕ → M (Session W) Bool
  loop_from rounds none = pure true
  loop_from rounds (some fd) = feed_rounds rounds fd

  pub feed_loop : ℕ → M (Session W) Bool
  feed_loop rounds s = loop_from rounds s.feed_fd s
