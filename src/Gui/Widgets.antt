-- ===== src/Gui/Widgets.antt =====
-- crates/owlsentry-gui/src/app.rs: what the window draws, in the order of drawing. Where the widgets
-- are placed (panels, grids, scroll areas, spaces) is left to egui; the
-- text that appears under the pointer is left out.
use owl_sentry.Base.{ℕ, Bool, List, nat_eq, list_eq, pair_eq}
use owl_sentry.Text.{Text}
use owl_sentry.Alert.Types.{Severity, info, low, medium, high, critical}

-- `Color32::from_rgb`
pub record Color : Type 0 where
  pub red : ℕ
  pub green : ℕ
  pub blue : ℕ

abbrev pub from_rgb : ℕ → ℕ → ℕ → Color
from_rgb r g b = record { red = r; green = g; blue = b }

unfoldable pub severity_color : Severity → Color
severity_color info = from_rgb 140 140 140
severity_color low = from_rgb 90 140 220
severity_color medium = from_rgb 220 180 60
severity_color high = from_rgb 235 130 50
severity_color critical = from_rgb 220 60 60

-- A text that can be clicked says whether it is the selected one; a combo box shows its choice, and
-- its options when it is open; a bar of the histogram has the index of its hour and its count beside
-- the largest, and a mark of its axis has the index and the hour.
pub data Widget : Type 0 where
  heading strong label monospace button : Text → Widget
  colored_label : Color → Text → Widget
  selectable : Bool → Text → Widget
  checkbox : Bool → Text → Widget
  combo_box : Text → List Text → Widget
  text_edit : Text → Widget
  end_row : Widget
  bar : (index amount largest : ℕ) → Widget
  hour_mark : (index hour : ℕ) → Widget
