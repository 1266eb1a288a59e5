-- ===== src/Examples.antt =====
-- Concrete data for the tests: two active notifications, an archived one, a timer, an inhibitor.
pub mod Data
mod StoreTests
mod DaemonTests
mod PartTests
mod ClientTests
use unix_notis.Prelude.{ℕ, Bool, true, false, Option, none, some, List, [], ◌∷◌, Text}
use unix_notis.Prelude.Int.{pos, negsuc}
use unix_notis.Model.{Notification, NotificationImage, Urgency, normal, critical, empty_image_data}
use unix_notis.Config.{Config, RuleConfig, no_popups}
use unix_notis.Store.{NotificationStore, Inhibitor, DndStateStore}

abbrev pub no_image : NotificationImage
no_image = record {
  has_image_data = false;
  image_data = empty_image_data;
  image_path = [];
  icon_name = [];
}

-- "mail".
abbrev pub mail : Text
mail = 109 ∷ 97 ∷ 105 ∷ 108 ∷ []

-- ":1" and ":2".
abbrev pub bus_one : Text
bus_one = 58 ∷ 49 ∷ []

abbrev pub bus_two : Text
bus_two = 58 ∷ 50 ∷ []

abbrev pub note : ℕ → Text → ℕ → Notification ℕ
note id sender pid = record {
  id = id;
  app_name = mail;
  app_icon = [];
  summary = 72 ∷ 105 ∷ [];
  body = [];
  actions = [];
  hints = [];
  urgency = normal;
  category = none;
  is_transient = false;
  is_resident = false;
  suppress_popup = false;
  suppress_sound = false;
  image = no_image;
  expire_timeout = negsuc 0;
  received_at = 0;
  sender_name = some sender;
  sender_pid = some pid;
  sender_start_time = some 5;
  sender_executable = none;
}

-- Silence whatever comes from an application whose name contains "AI".
abbrev pub silence_ai : RuleConfig
silence_ai = record {
  name = none;
  app = some (65 ∷ 73 ∷ []);
  summary = none;
  body = none;
  category = none;
  urgency = none;
  no_popup = none;
  silent = some true;
  force_urgency = none;
  expire_timeout_ms = some (pos 5000000000);
  resident = none;
  transient = none;
}

abbrev pub config : Config
config = record {
  dnd_default = false;
  inhibit_mode = no_popups;
  popups = record { default_timeout_ms = 4000; critical_timeout_ms = none };
  history = record { max_entries = 2; max_active = 2; transient_to_history = false };
  rules = silence_ai ∷ [];
}

abbrev pub mailer : Inhibitor
mailer = record { id = 1; owner = bus_one; reason = mail; scope = 1 }

abbrev pub busy : NotificationStore ℕ
busy = record {
  config = config;
  next_id = 4;
  active = (1, note 1 bus_one 10) ∷ (2, note 2 bus_two 20) ∷ [];
  history = record { entries = (3, note 3 bus_one 10) ∷ []; order = 3 ∷ [] };
  expirations = (1, 500) ∷ [];
  dnd_enabled = false;
  dnd_revision = 0;
  dnd_state_store = some (record { path = mail });
  next_inhibitor_id = 2;
  inhibitors = (1, mailer) ∷ [];
  inhibited = true;
  inhibitor_count = 1;
}

-- The notification that comes in.
abbrev pub fresh : Notification ℕ
fresh = note 0 bus_one 10

-- Another state, in which do-not-disturb was written twice since.
abbrev pub later : NotificationStore ℕ
later = record busy { dnd_enabled = true; dnd_revision = 2 }
