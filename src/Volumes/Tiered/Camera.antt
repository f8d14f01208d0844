-- ===== src/Volumes/Tiered/Camera.antt =====
-- "Voice on camera" in `computeTieredVolumes` of server/src/volumes.ts: both have to share.
use lo_lprox_chat.Common.{ℕ, ◌+◌, ◌≤◌, ◌≡◌, sym, ◌⊎◌, inl, inr, some, arith, In, Option-cases}
use lo_lprox_chat.Client.{Client, Point, Stamped}
use lo_lprox_chat.Volumes.Request.{VolumeRequest}
use lo_lprox_chat.Volumes.Tiered.Hearing.{keep_if-since}
use lo_lprox_chat.Volumes.Tiered.{listener_of, my_points, is_since, stale_position_ms, keep_if}

-- The client has shared its camera in the last 5 s.
pub record SharesCamera (now : ℕ) (c : Client) : Type 0 where
  pub shared : Stamped
  pub stored : c.camera ≡ some shared
  pub fresh : now ≤ shared.updated_ms + 5000

SharesCamera-fresh :
    (now : ℕ) (c : Client) (p : Stamped)
    → keep_if (is_since now stale_position_ms) c.camera ≡ some p
    → SharesCamera now c
SharesCamera-fresh now c p e =
    let (stored, fresh) = keep_if-since now 5000 c.camera p e in
    record { shared = p; stored = stored; fresh = fresh }

-- Whoever hears a peer from another place than the one that it names does so from the camera that it
-- shares with the room itself, and only if the peer shares its own.
pub my_points_lem :
    (body : VolumeRequest) (at : Point) (now : ℕ) (me peer : Client) (q : Point)
    → In q (my_points (listener_of body at now me) peer)
    → (q ≡ at) ⊎ ((mine : SharesCamera now me) × (mine.shared.point ≡ q) × SharesCamera now peer)
unfolding my_points listener_of
my_points_lem body at now me peer q m =
    elim (Option-cases (keep_if (is_since now stale_position_ms) me.camera)) [
      | inl mine ↦ inl (ground (arith, mine))
      | inr (c, mine) ↦ elim (Option-cases (keep_if (is_since now stale_position_ms) peer.camera)) [
        | inl theirs ↦ inl (ground (arith, mine, theirs))
        | inr (d, theirs) ↦
            let points : (q ≡ at) ⊎ ((q ≡ c.point) ⊎ ⊥) = rw (mine, theirs) at m in
            elim points [
              | inl own ↦ inl own
              | inr (inl camera) ↦ inr (
                record {
                  shared = c;
                  stored = (keep_if-since now 5000 me.camera c mine).0;
                  fresh = (keep_if-since now 5000 me.camera c mine).1;
                },
                sym camera,
                SharesCamera-fresh now peer d theirs,
              )
              | inr (inr never) ↦ absurd never
            ]
      ]
    ]
