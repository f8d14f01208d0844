-- ===== src/Volumes/FromRoom.antt =====
-- `computeVolumesFromRoom` of server/src/volumes.ts: every peer with a fresh position, by distance
-- alone, from the positions that `getRoomPositions` of server/src/rooms.ts gives.
pub mod Answer
use lo_lprox_chat.Common.{ℕ, String, Option, none, some, List, [], ◌∷◌, string_eq}
use lo_lprox_chat.Common.Dict.{Dict}
use lo_lprox_chat.Client.{Point}
use lo_lprox_chat.Volumes.Entries.{record_volume}
use lo_lprox_chat.Rooms.{RoomPosition}
use lo_lprox_chat.Volumes.Distance.{hypot}
use lo_lprox_chat.Volumes.Curve.{calculate_volume}
use lo_lprox_chat.Volumes.Request.{
  VolumeRequest, VolumeResponse, peer_volumes, throws, Checked, passed, failed, check_request,
}
use lo_lprox_chat.Volumes.Tiered.{stale_position_ms}

-- `Math.sqrt(dx * dx + dy * dy)` is the distance that `Math.hypot` gives.
unfoldable pub volumes_at : Point → List RoomPosition → Dict String ℕ → Dict String ℕ
volumes_at at [] out = out
volumes_at at (p ∷ ps) out =
    volumes_at at ps (record_volume p.name (calculate_volume (hypot at p.point)) out)

unfoldable pub from_room_checked :
    (String → String → ℕ → List RoomPosition) → Checked → VolumeResponse
unfolding volumes_at
from_room_checked get_positions (failed e) = throws e
from_room_checked get_positions (passed at room name) =
    peer_volumes (volumes_at at (get_positions room name stale_position_ms) [])

unfoldable pub compute_volumes_from_room :
    VolumeRequest → (String → String → ℕ → List RoomPosition) → VolumeResponse
unfolding from_room_checked check_request
compute_volumes_from_room body get_positions = from_room_checked get_positions (check_request body)
