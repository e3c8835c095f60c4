-- ===== src/UiStore/Tests.antt =====
-- A run of the store: a toast is shown and dismissed.
use shadowchat.Common.{none, refl, false, ◌≡◌}
use shadowchat.UiStore.{
  UiState, ToastNotification, info, initial_state, set_timer, show_toast, dismiss_toast,
}
use shadowchat.UiStore.Toasts.{
  is_shown, starts, follows, shows, dismisses, IsTidy, IsReachable-IsTidy,
}

abbrev toast : ToastNotification
toast = record { id = "1"; kind = info; title = "t"; message = "m"; duration_ms = none }

abbrev other : ToastNotification
other = record toast { id = "2" }

abbrev two_toasts : UiState
two_toasts = show_toast other (show_toast toast initial_state)

fresh : is_shown "2" (show_toast toast initial_state).notifications ≡ false
unfolding show_toast set_timer
fresh = refl

IsReachable-IsTidy_example : IsTidy (dismiss_toast "1" two_toasts)
IsReachable-IsTidy_example = IsReachable-IsTidy (
    follows
      (follows (follows starts (shows toast initial_state refl))
        (shows other (show_toast toast initial_state) fresh))
      (dismisses "1" two_toasts))
