-- ===== src/Volte/Media.antt =====
-- The media session of a call (ims/volte.py: _start_media), and what MediaSession.hold and
-- MediaSession.resume of ims/media.py do to it. _stop_media runs for calls that leave the table, which
-- takes their sessions with them.
use virtual_phone.Prelude.{Bool, true, false, ◌||◌, Option, none, some, ◌==◌, if◌then◌else◌}
use virtual_phone.Texts.{is_empty}
use virtual_phone.Sdp.{parse_remote_rtp_address}
use virtual_phone.Volte.State.{VolteCall}

-- _start_media; `starts` says whether MediaSession.start succeeds.
unfoldable pub start_media : Bool → VolteCall → VolteCall
unfolding parse_remote_rtp_address
start_media starts call =
    if is_empty call.remote_sdp || (call.rtp_port == 0)
    then call
    else if (parse_remote_rtp_address call.remote_sdp).1 == 0
    then call
    else if starts
    then record call { media = some false }
    else call

abbrev pub set_hold : Bool → Option Bool → Option Bool
set_hold on none = none
set_hold on (some _) = some on

-- `if call.media_session: call.media_session.hold()`
unfoldable pub hold_media : VolteCall → VolteCall
hold_media call = record call { media = set_hold true call.media }

unfoldable pub resume_media : VolteCall → VolteCall
resume_media call = record call { media = set_hold false call.media }
