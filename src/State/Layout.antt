-- ===== src/State/Layout.antt =====
-- apps/web/src/app/state/layout.service.ts: which overlays of the board are open.
use kanhrd.Base.{Bool, true, false, not}

pub record Layout : Type 0 where
  pub rail_open : Bool
  pub plus_menu_open : Bool
  pub theme_panel_open : Bool

abbrev pub closed_layout : Layout
closed_layout = record { rail_open = false; plus_menu_open = false; theme_panel_open = false }

unfoldable pub toggle_rail : Layout → Layout
toggle_rail l = record l { rail_open = not l.rail_open }

unfoldable pub open_rail : Layout → Layout
open_rail l = record l { rail_open = true }

unfoldable pub close_rail : Layout → Layout
close_rail l = record l { rail_open = false }

unfoldable pub toggle_plus_menu : Layout → Layout
toggle_plus_menu l = record l { plus_menu_open = not l.plus_menu_open }

unfoldable pub close_plus_menu : Layout → Layout
close_plus_menu l = record l { plus_menu_open = false }

unfoldable pub toggle_theme_panel : Layout → Layout
toggle_theme_panel l = record l { theme_panel_open = not l.theme_panel_open }

unfoldable pub close_theme_panel : Layout → Layout
close_theme_panel l = record l { theme_panel_open = false }
