-- ===== src/Model.antt =====
-- Notification records and their views: crates/unixnotis-core/src/model/notification.rs and
-- types.rs, and the image payload of model/image.rs. `H` stands for a D-Bus variant
-- (`zvariant::OwnedValue`), which the store keeps and never reads.
pub mod Control
pub mod Image
pub mod Same
pub mod Pixels
use unix_notis.Prelude.{
  ℕ, Bool, true, false, Option, none, some, List, [], ◌∷◌, Text, if◌then◌else◌,
}
use unix_notis.Prelude.Int.{ℤ, pos}

pub data Urgency : Type 0 where
  low normal critical : Urgency

unfoldable pub as_u8 : Urgency → ℕ
as_u8 low = 0
as_u8 normal = 1
as_u8 critical = 2

abbrev pub urgency_eq : Urgency → Urgency → Bool
urgency_eq low low = true
urgency_eq normal normal = true
urgency_eq critical critical = true
urgency_eq _ _ = false

pub record Action : Type 0 where
  pub key : Text
  pub label : Text

pub record ImageData : Type 0 where
  pub width : ℤ
  pub height : ℤ
  pub rowstride : ℤ
  pub has_alpha : Bool
  pub bits_per_sample : ℤ
  pub channels : ℤ
  pub bytes : List ℕ

abbrev pub empty_image_data : ImageData
empty_image_data = record {
  width = pos 0;
  height = pos 0;
  rowstride = pos 0;
  has_alpha = false;
  bits_per_sample = pos 0;
  channels = pos 0;
  bytes = [];
}

pub record NotificationImage : Type 0 where
  pub has_image_data : Bool
  pub image_data : ImageData
  pub image_path : Text
  pub icon_name : Text

-- Times are numbers of a clock; `expire_timeout` is an `i32`.
pub record Notification (H : Type 0) : Type 0 where
  pub id : ℕ
  pub app_name : Text
  pub app_icon : Text
  pub summary : Text
  pub body : Text
  pub actions : List Action
  pub hints : List (Text × H)
  pub urgency : Urgency
  pub category : Option Text
  pub is_transient : Bool
  pub is_resident : Bool
  pub suppress_popup : Bool
  pub suppress_sound : Bool
  pub image : NotificationImage
  pub expire_timeout : ℤ
  pub received_at : ℕ
  pub sender_name : Option Text
  pub sender_pid : Option ℕ
  pub sender_start_time : Option ℕ
  pub sender_executable : Option Text

pub record NotificationView : Type 0 where
  pub id : ℕ
  pub app_name : Text
  pub summary : Text
  pub body : Text
  pub actions : List Action
  pub urgency : ℕ
  pub is_transient : Bool
  pub image : NotificationImage

abbrev is_empty : List ℕ → Bool
is_empty [] = true
is_empty (x ∷ xs) = false

unfoldable pub for_listing : NotificationImage → NotificationImage
for_listing image =
    if is_empty image.image_data.bytes
    then image
    else record image { has_image_data = false; image_data = empty_image_data }

module _ {H : Type 0} where
  unfoldable pub to_view : Notification H → NotificationView
  to_view n = record {
    id = n.id;
    app_name = n.app_name;
    summary = n.summary;
    body = n.body;
    actions = n.actions;
    urgency = as_u8 n.urgency;
    is_transient = n.is_transient;
    image = n.image;
  }

  unfoldable pub to_list_view : Notification H → NotificationView
  to_list_view n = record {
    id = n.id;
    app_name = n.app_name;
    summary = n.summary;
    body = n.body;
    actions = n.actions;
    urgency = as_u8 n.urgency;
    is_transient = n.is_transient;
    image = for_listing n.image;
  }

  -- A history entry keeps no raw image and no hints.
  unfoldable pub to_history : Notification H → Notification H
  to_history n = record n {
    hints = [];
    image = record (n.image) { has_image_data = false; image_data = empty_image_data };
  }
