-- ===== src/Examples/Serving.antt =====
-- The theorems on the feed at one run each.
use hail2_repos.Prelude.{◌≡◌, refl, true, none, some, [], Text, codes}
use hail2_repos.Image.{fresh}
use hail2_repos.Load.Services.{load_start_service, load_stop_service, load_restart_service}
use hail2_repos.Load.Boot.{load_enable_service, load_disable_service}
use hail2_repos.Feed.Commands.{Session, feed_command, feed_valid_service}
use hail2_repos.Feed.Commands.Requests.{Serves, feed_command-Serves}
use hail2_repos.Feed.Commands.Printing.{service_line, Replies, feed_command-Replies}
use hail2_repos.Examples.Script.{Script, scripted}

abbrev connected : Session Script
connected = record { image = fresh []; feed_fd = none; replies = [] }

web_is_valid : feed_valid_service (codes "web") ≡ true
unfolding codes
web_is_valid = refl

feed_command-Serves_example :
    Serves scripted connected (feed_command scripted (codes "start web\n") connected).1
feed_command-Serves_example = feed_command-Serves scripted (codes "start web\n") connected

feed_command-Replies_example :
    let sent = λ (command : Text).
      (feed_command scripted (service_line command (codes "web")) connected).1 in
    let web = some (codes "web") in
    Replies scripted
      (codes "ERR enable failed\n")
      (load_enable_service scripted web)
      connected
      (sent (codes "enable"))
    × Replies scripted
        (codes "ERR disable failed\n")
        (load_disable_service scripted web)
        connected
        (sent (codes "disable"))
    × Replies scripted
        (codes "ERR start failed\n")
        (load_start_service scripted web)
        connected
        (sent (codes "start"))
    × Replies scripted
        (codes "ERR stop failed\n")
        (load_stop_service scripted web)
        connected
        (sent (codes "stop"))
    × Replies scripted
        (codes "ERR restart failed\n")
        (load_restart_service scripted web)
        connected
        (sent (codes "restart"))
feed_command-Replies_example = feed_command-Replies scripted (codes "web") connected web_is_valid
