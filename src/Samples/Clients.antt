-- ===== src/Samples/Clients.antt =====
-- Runs of the client: a connection that is taken over, a frame, the players of a game, and a voice.
use lo_lprox_chat.Common.{
  ℕ, String, map, ◌≡◌, refl, Bool, true, false, Option, none, some, List, [], ◌∷◌, All, In, inl,
  arith, nat_eq, string_eq,
}
use lo_lprox_chat.Common.Dict.{lookup, insert}
use lo_lprox_chat.Json.{Json, str}
use lo_lprox_chat.Client.{Client, order}
use lo_lprox_chat.Validate.{validate_join, valid}
use lo_lprox_chat.Messages.{ServerMessage, room_state, sends as sends_to}
use lo_lprox_chat.Rooms.{
  no_client, members, named, remove_first, get_client_info, get_others_in_room,
}
use lo_lprox_chat.Handshake.{handle_join}
use lo_lprox_chat.Signaling.Served.{handle_join-meets}
use lo_lprox_chat.Address.Chars.{chars_eq}
use lo_lprox_chat.Signaling.{
  new_signaling, Signaling, Session, leave_room, on_close, on_timer, on_open, takeover_code, waits,
  opens, sends, closes, peer_joined, announce, announce_all, backoff_ms, join_room,
}
use lo_lprox_chat.Signaling.Wire.{Outgoing, as_read}
use lo_lprox_chat.Signaling.Sending.{Event, joins, opened, closed, timed_out, run}
use lo_lprox_chat.Signaling.Terminal.{IsQuiet, run-ended}
use lo_lprox_chat.Signaling.Rejoin.{on_close-rejoins}
use lo_lprox_chat.CaptureFrame.{CaptureFrame, buffer, view, frame, decode_capture_frame}
use lo_lprox_chat.CaptureFrame.RoundTrip.{
  IsFrame, encode_frame, decode_capture_frame-encode, decode_capture_frame-inv,
}
use lo_lprox_chat.Samples.Sessions.{all_open, handlers, one_player, one_player-Inv}

abbrev no_fields : ℕ → Json × Json
no_fields i = (Json.absent, Json.absent)

abbrev no_text : Json → Option Json
no_text j = none

abbrev joined_once : List ((ℕ → Bool) × Event)
joined_once = (all_open, joins "g1" "ann#eu" (some order) true) ∷ (all_open, opened 0) ∷ []

abbrev closed_then_timer : List ((ℕ → Bool) × Event)
closed_then_timer = (all_open, closed 0 1006) ∷ (all_open, timed_out) ∷ []

joined_once-ws : (run no_fields no_text new_signaling joined_once).0.ws ≡ some 0
unfolding run on_open lookup join_room insert
joined_once-ws = refl

run-ended_example :
    let s = (run no_fields no_text new_signaling joined_once).0 in
    ((run no_fields no_text (leave_room s).0 closed_then_timer).1 ≡ [])
    × All IsQuiet (run no_fields no_text (on_close s 0 takeover_code).0 closed_then_timer).1
run-ended_example =
    run-ended no_fields no_text joined_once closed_then_timer 0 joined_once-ws (tt, (tt, tt))

abbrev connected_client : Signaling
connected_client = record new_signaling {
  ws = some 0;
  local_name = "ann#eu";
  room = some "g1";
  team = some order;
  handlers = some true;
  made = 1;
}

on_close-rejoins_example :
    let lost = on_close connected_client 0 1006 in
    let back = on_timer lost.0 in
    let ready = on_open back.0 1 in
    (lost.1 ≡ waits (backoff_ms 1) ∷ [])
    × (back.1 ≡ closes 0 ∷ opens 1 ∷ [])
    × (ready.1 ≡ sends 1 (Outgoing.join_as "g1" "ann#eu" (some order) false) ∷ [])
    × (ready.0.attempt ≡ 0)
on_close-rejoins_example =
    on_close-rejoins connected_client 0 1006 "g1" true refl refl refl refl refl refl

abbrev one_pixel : CaptureFrame
one_pixel = record { width = 1; height = 1; pixels = 10 ∷ 20 ∷ 30 ∷ 255 ∷ [] }

one_pixel-IsFrame : IsFrame one_pixel
one_pixel-IsFrame = record {
  wide = λ e. omega (arith, e);
  high = λ e. omega (arith, e);
  width_fits = omega arith;
  height_fits = omega arith;
  full = refl;
}

decode_capture_frame-encode_example :
    (decode_capture_frame (buffer (encode_frame one_pixel)) ≡ frame one_pixel)
    × (decode_capture_frame (view (7 ∷ encode_frame one_pixel) 1 12) ≡ frame one_pixel)
decode_capture_frame-encode_example =
    decode_capture_frame-encode one_pixel (7 ∷ []) [] one_pixel-IsFrame

decoded_pixel : decode_capture_frame (buffer (encode_frame one_pixel)) ≡ frame one_pixel
unfolding decode_capture_frame
decoded_pixel = refl

decode_capture_frame-inv_example :
    IsFrame one_pixel × (encode_frame one_pixel ≡ encode_frame one_pixel)
decode_capture_frame-inv_example =
    decode_capture_frame-inv (encode_frame one_pixel) one_pixel (ground arith) decoded_pixel

abbrev ann : Client
ann = record no_client {
  room_id = "k3x9";
  name = "ann#eu";
  ws = 1;
  team = some order;
  shared_reset = some true;
}

abbrev session_of : String → Session
session_of name = record { room = "k3x9"; name = name; team = some order; announces = true }

bob_accepted : validate_join (str "k3x9") (str "bob#eu") ≡ valid "k3x9" "bob#eu"
unfolding handlers
bob_accepted = refl

bob_nowhere : get_client_info one_player 2 ≡ none
unfolding handlers
bob_nowhere = refl

ann_there : In ann (
    get_others_in_room
      (handle_join all_open one_player 2
        (as_read (Outgoing.join_as "k3x9" "bob#eu" (some order) true))).0
      2)
unfolding handlers
ann_there = inl refl

handle_join-meets_example :
    let out =
      handle_join all_open one_player 2
        (as_read (Outgoing.join_as "k3x9" "bob#eu" (some order) true)) in
    let peers =
      map
        (λ i. (one_player.heap i).name)
        (remove_first (named one_player "bob#eu") (members one_player "k3x9")) in
    In (sends_to 2 (room_state peers)) out.1
    × (announce_all (session_of "bob#eu") "bob#eu" peers ≡ map peer_joined peers)
    × In (sends_to 1 (ServerMessage.peer_joined "bob#eu")) out.1
    × (announce (session_of "ann#eu") "ann#eu" "bob#eu" ≡ peer_joined "bob#eu" ∷ [])
handle_join-meets_example =
    handle_join-meets all_open one_player 2 "k3x9" "bob#eu" (some order) true ann
      (session_of "bob#eu") (session_of "ann#eu") one_player-Inv bob_accepted bob_nowhere refl
      ann_there refl refl refl
