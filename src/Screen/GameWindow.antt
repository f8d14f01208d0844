-- ===== src/Screen/GameWindow.antt =====
-- src/core/game-window.ts: which rectangle of the screen is the game.
use lo_lprox_chat.Common.{ℕ, Bool, false, not, Option, none, some, ◌&&◌, leb, if◌then◌else◌}
use lo_lprox_chat.Common.Int.{pos, ◌+ℤ◌, ltb_ℤ, distance_ℤ}
use lo_lprox_chat.Screen.{ScreenRect}

-- What `get_game_window_info` answers, without the fields that are only logged.
pub record GameWindowInfo : Type 0 where
  pub found : Bool
  pub rect : Option ScreenRect
  pub virtual_screen : ScreenRect
  pub primary_screen : ScreenRect

-- `WARN_NOT_FOUND`, `WARN_IMPLAUSIBLE` and `WARN_QUERY_FAILED`.
pub data Warning : Type 0 where
  not_found implausible query_failed : Warning

pub data Source : Type 0 where
  game_window primary_screen : Source

pub record ResolvedGameRect : Type 0 where
  pub rect : ScreenRect
  pub source : Source
  pub warning : Option Warning

-- `GameRectDecision`: a rectangle only with `apply`.
pub data Decision : Type 0 where
  keep : Option Warning → Decision
  apply : ScreenRect → Decision

abbrev pub min_game_width : ℕ
min_game_width = 640

abbrev pub min_game_height : ℕ
min_game_height = 480

abbrev pub rect_dead_zone_px : ℕ
rect_dead_zone_px = 4

unfoldable pub rects_intersect : ScreenRect → ScreenRect → Bool
rects_intersect a b =
    ltb_ℤ a.x (b.x +ℤ pos b.width)
    && ltb_ℤ b.x (a.x +ℤ pos a.width)
    && ltb_ℤ a.y (b.y +ℤ pos b.height)
    && ltb_ℤ b.y (a.y +ℤ pos a.height)

unfoldable pub is_plausible_game_rect : Option ScreenRect → ScreenRect → Bool
unfolding rects_intersect
is_plausible_game_rect none virtual_screen = false
is_plausible_game_rect (some rect) virtual_screen =
    leb min_game_width rect.width
    && leb min_game_height rect.height
    && rects_intersect rect virtual_screen

unfoldable pub rects_are_close : ScreenRect → ScreenRect → Bool
rects_are_close current next =
    leb (distance_ℤ next.x current.x) rect_dead_zone_px
    && leb (distance_ℤ next.y current.y) rect_dead_zone_px
    && leb (distance_ℤ (pos next.width) (pos current.width)) rect_dead_zone_px
    && leb (distance_ℤ (pos next.height) (pos current.height)) rect_dead_zone_px

abbrev pub or_primary : ScreenRect → Option ScreenRect → ScreenRect
or_primary primary none = primary
or_primary primary (some rect) = rect

unfoldable pub resolve_game_rect : GameWindowInfo → ResolvedGameRect
unfolding is_plausible_game_rect
resolve_game_rect info =
    if info.found && is_plausible_game_rect info.rect info.virtual_screen
    then record {
      rect = or_primary info.primary_screen info.rect;
      source = game_window;
      warning = none;
    }
    else record {
      rect = info.primary_screen;
      source = primary_screen;
      warning = some (if info.found then implausible else not_found);
    }

-- What a plausible reading does.
unfoldable pub update_to : ScreenRect → Option ScreenRect → Decision
unfolding rects_are_close
update_to current none = keep none
update_to current (some rect) = if rects_are_close current rect then keep none else apply rect

unfoldable pub decide_game_rect_update : ScreenRect → Option GameWindowInfo → Decision
unfolding update_to
decide_game_rect_update current none = keep (some query_failed)
decide_game_rect_update current (some info) =
    if not info.found
    then keep (some not_found)
    else if not (is_plausible_game_rect info.rect info.virtual_screen)
    then keep (some implausible)
    else update_to current info.rect
