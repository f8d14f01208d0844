-- ===== src/Samples/Requests.antt =====
-- A volume request, and what is counted for it.
use lo_lprox_chat.Common.{◌+◌, ◌≡◌, ◌||◌, [], ◌∷◌}
use lo_lprox_chat.Text.{codes}
use lo_lprox_chat.Rooms.{no_rooms}
use lo_lprox_chat.Limits.Rejections.{
  body_too_large, compute_volumes_ip, compute_volumes_player, turn_creds_ip,
}
use lo_lprox_chat.Address.Chars.{Chars}
use lo_lprox_chat.Server.Connections.{one}
use lo_lprox_chat.Http.{Web, HttpRequest, Body, not_object, handle_request}
use lo_lprox_chat.Http.Due.{is_429, is_413}
use lo_lprox_chat.Http.Counted.{counts, due, handle_request-counts}
use lo_lprox_chat.Samples.Addresses.{is_ip, direct, trust}

abbrev fresh_web : Web
fresh_web = record {
  ip_buckets = [];
  player_buckets = [];
  turn_buckets = [];
  counters = record { totals = []; reported = [] };
}

abbrev asks_volumes : HttpRequest
asks_volumes = record {
  method = "POST";
  url = "/compute-volumes";
  origin = direct;
  chunks = codes "[1]" ∷ [];
  now = 1000;
  later = 1010;
}

abbrev as_value : Chars → Body
as_value text = not_object

handle_request-counts_example :
    let out = handle_request is_ip as_value trust fresh_web no_rooms asks_volumes in
    (counts out.0 body_too_large
      ≡ counts fresh_web body_too_large
        + one (due is_ip as_value trust fresh_web asks_volumes body_too_large))
    × (is_429 out.1 ≡ (
        due is_ip as_value trust fresh_web asks_volumes compute_volumes_ip
        || (due is_ip as_value trust fresh_web asks_volumes compute_volumes_player
            || due is_ip as_value trust fresh_web asks_volumes turn_creds_ip)))
    × (is_413 out.1 ≡ due is_ip as_value trust fresh_web asks_volumes body_too_large)
handle_request-counts_example =
    handle_request-counts is_ip as_value trust fresh_web no_rooms asks_volumes body_too_large
