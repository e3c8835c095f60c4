-- ===== src/UiStore.antt =====
-- frontend/src/stores/uiStore.ts: the store of the user interface, with its toasts and their timers.
-- The id that `randomUUID` draws is an argument; a timer handle is a number.
pub mod Toasts
pub mod Tests
use shadowchat.Common.{
  ℕ, ◌+◌, List, [], ◌∷◌, ◌++◌, Option, none, some, String, Bool, true, false, not, ltb, ◌==◌,
  str_eq, filter, if◌then◌else◌,
}
use shadowchat.Common.Dict
use shadowchat.Common.Dict.{Dict}

pub data ToastKind : Type 0 where
  info success warning error : ToastKind

pub record ToastNotification : Type 0 where
  pub id : String
  pub kind : ToastKind
  pub title : String
  pub message : String
  pub duration_ms : Option ℕ

pub data Theme : Type 0 where
  dark light system : Theme

-- A pending `setTimeout` of `showToast`: its handle, and the toast that it takes away.
pub record Pending : Type 0 where
  pub handle : ℕ
  pub toast : String

-- The state, with the map `toastTimeouts` and the timers of the browser.
pub record UiState : Type 0 where
  pub theme : Theme
  pub sidebar_open : Bool
  pub notifications : List ToastNotification
  pub page_leaving : Bool
  pub toast_timeouts : Dict ℕ
  pub timers : List Pending
  pub next_handle : ℕ

abbrev pub initial_state : UiState
initial_state = record {
  theme = dark;
  sidebar_open = true;
  notifications = [];
  page_leaving = false;
  toast_timeouts = [];
  timers = [];
  next_handle = 1;
}

unfoldable pub set_theme : Theme → UiState → UiState
set_theme theme s = record s { theme = theme }

unfoldable pub toggle_sidebar : UiState → UiState
toggle_sidebar s = record s { sidebar_open = not s.sidebar_open }

unfoldable pub set_sidebar_open : Bool → UiState → UiState
set_sidebar_open sidebar_open s = record s { sidebar_open = sidebar_open }

unfoldable pub set_page_leaving : Bool → UiState → UiState
set_page_leaving leaving s = record s { page_leaving = leaving }

-- `notif.durationMs ?? 4000`
abbrev pub duration_of : ToastNotification → ℕ
duration_of n = elim n.duration_ms [ none ↦ 4000 | some d ↦ d ]

-- `state.notifications.filter((n) => n.id !== id)`
abbrev pub without_toast : String → List ToastNotification → List ToastNotification
without_toast id ns = filter (λ n. not (str_eq n.id id)) ns

abbrev pub without_timer : ℕ → List Pending → List Pending
without_timer h ts = filter (λ t. not (t.handle == h)) ts

unfoldable pub set_timer : String → UiState → UiState
set_timer id s = record s {
  timers = s.timers ++ (record { handle = s.next_handle; toast = id } ∷ []);
  toast_timeouts = Dict.set id s.next_handle s.toast_timeouts;
  next_handle = s.next_handle + 1;
}

-- The id of `notif` is the drawn one.
unfoldable pub show_toast : ToastNotification → UiState → UiState
unfolding set_timer
show_toast notif s =
    let shown = record s { notifications = s.notifications ++ (notif ∷ []) } in
    if ltb 0 (duration_of notif) then set_timer notif.id shown else shown

-- The callback of a timer.
unfoldable pub fire : Pending → UiState → UiState
fire t s = record s {
  timers = without_timer t.handle s.timers;
  toast_timeouts = Dict.delete t.toast s.toast_timeouts;
  notifications = without_toast t.toast s.notifications;
}

-- A handle is never 0, so `if (timer)` asks whether there is one.
abbrev pub clear_timer : String → Option ℕ → UiState → UiState
clear_timer id none s = s
clear_timer id (some h) s = record s {
  timers = without_timer h s.timers;
  toast_timeouts = Dict.delete id s.toast_timeouts;
}

unfoldable pub dismiss_toast : String → UiState → UiState
dismiss_toast id s =
    let cleared = clear_timer id (Dict.get id s.toast_timeouts) s in
    record cleared { notifications = without_toast id cleared.notifications }
