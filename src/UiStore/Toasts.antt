-- ===== src/UiStore/Toasts.antt =====
-- Toasts and their timers agree in every state that the store reaches.
use shadowchat.Common.{
  ℕ, ◌≡◌, ◌≢◌, refl, sym, ap, ◌∙◌, List, [], ◌∷◌, ◌++◌, Option, none, some, String, Bool, true,
  false, ltb, ◌==◌, str_eq, eq_iff, arith, All, All-append, All-weaken, Bool-cases, inl, inr,
  if◌then◌else◌,
}
use mathlib.Core.Path.{subst}
use shadowchat.Common.Dict
use shadowchat.UiStore.{
  ToastNotification, Theme, Pending, UiState, initial_state, set_theme, toggle_sidebar,
  set_sidebar_open, set_page_leaving, duration_of, without_toast, without_timer, set_timer,
  show_toast, fire, clear_timer, dismiss_toast,
}

-- A toast with the id is shown.
abbrev pub is_shown : String → List ToastNotification → Bool
is_shown id [] = false
is_shown id (n ∷ ns) = let rest = is_shown id ns in if str_eq n.id id then true else rest

-- An action of a component, or a timer that fires. `randomUUID` draws an id that no shown toast has.
pub data Step : UiState → UiState → Type 0 where
  themes : (t : Theme) (s : UiState) → Step s (set_theme t s)
  toggles : (s : UiState) → Step s (toggle_sidebar s)
  opens_sidebar : (b : Bool) (s : UiState) → Step s (set_sidebar_open b s)
  leaves : (b : Bool) (s : UiState) → Step s (set_page_leaving b s)
  shows :
      (n : ToastNotification) (s : UiState)
      → is_shown n.id s.notifications ≡ false
      → Step s (show_toast n s)
  fires :
      (before after : List Pending) (t : Pending) (s : UiState)
      → s.timers ≡ before ++ (t ∷ after)
      → Step s (fire t s)
  dismisses : (id : String) (s : UiState) → Step s (dismiss_toast id s)

pub data IsReachable : UiState → Type 0 where
  starts : IsReachable initial_state
  follows : {s t : UiState} → IsReachable s → Step s t → IsReachable t

-- A pending timer is the one in the map for its toast, and its toast is shown.
pub record IsTimed (s : UiState) (t : Pending) : Type 0 where
  pub known : Dict.get t.toast s.toast_timeouts ≡ some t.handle
  pub shown : is_shown t.toast s.notifications ≡ true

abbrev pub IsTidy : UiState → Type 0
IsTidy s = All (IsTimed s) s.timers

is_shown-append :
    (id : String) (ns : List ToastNotification) (n : ToastNotification)
    → is_shown id ns ≡ true
    → is_shown id (ns ++ (n ∷ [])) ≡ true
is_shown-append id [] n h = cc
is_shown-append id (m ∷ ns) n h = ground (arith, is_shown-append id ns n)

is_shown_last :
    (n : ToastNotification) (ns : List ToastNotification) → is_shown n.id (ns ++ (n ∷ [])) ≡ true
is_shown_last n [] = rw ((eq_iff n.id n.id).1 refl) refl
is_shown_last n (m ∷ ns) = ground (arith, is_shown_last n ns)

is_shown-without_toast :
    (id gone : String) (ns : List ToastNotification)
    → gone ≢ id
    → is_shown id ns ≡ true
    → is_shown id (without_toast gone ns) ≡ true
is_shown-without_toast id gone [] differ h = h
is_shown-without_toast id gone (n ∷ ns) differ h =
    ground (arith, is_shown-without_toast id gone ns differ, eq_iff n.id id, eq_iff n.id gone)

-- A timer of another toast stays in order where one toast goes.
other_lem :
    (id : String) (s d : UiState) (t : Pending)
    → id ≢ t.toast
    → Dict.get t.toast d.toast_timeouts ≡ Dict.get t.toast s.toast_timeouts
    → d.notifications ≡ without_toast id s.notifications
    → IsTimed s t
    → IsTimed d t
other_lem id s d t differ e f h = record {
  known = e ∙ h.known;
  shown =
      ap (is_shown t.toast) f ∙ is_shown-without_toast t.toast id s.notifications differ h.shown;
}

no_timer : {k : ℕ} → none ≡ some k → ⊥
no_timer q = cc

some-injective : {m n : ℕ} → some m ≡ some n → m ≡ n
some-injective h = cc

differs :
    (h : ℕ) (id : String) (s : UiState) (t : Pending)
    → Dict.get id s.toast_timeouts ≡ some h
    → IsTimed s t
    → (t.handle == h) ≡ false
    → id ≢ t.toast
differs h id s t known timed other q =
    let same : t.handle ≡ h =
      some-injective (sym timed.known ∙ ap (λ x. Dict.get x s.toast_timeouts) (sym q) ∙ known) in
    ground (arith, other, same)

-- Dropping a timer's handle and its toast keeps what is known of the others.
dropped_lem :
    (h : ℕ) (id : String) (s d : UiState)
    → Dict.get id s.toast_timeouts ≡ some h
    → d.toast_timeouts ≡ Dict.delete id s.toast_timeouts
    → d.notifications ≡ without_toast id s.notifications
    → (ts : List Pending) → All (IsTimed s) ts
    → All (IsTimed d) (without_timer h ts)
dropped_lem h id s d known e f [] a = tt
dropped_lem h id s d known e f (t ∷ ts) a = elim (Bool-cases (t.handle == h)) [
  | inl same ↦ rw same (dropped_lem h id s d known e f ts a.1)
  | inr other ↦
      let differ = differs h id s t known a.0 other in
      rw other (
        other_lem id s d t differ
            (ap (Dict.get t.toast) e ∙ Dict.get-delete_ne id t.toast s.toast_timeouts differ) f a.0,
        dropped_lem h id s d known e f ts a.1,
      )
]

All_at :
    (P : Pending → Type 0) (before after : List Pending) (t : Pending)
    → All P (before ++ (t ∷ after))
    → P t
All_at P [] after t h = h.0
All_at P (x ∷ before) after t h = All_at P before after t h.1

fire-IsTidy :
    (before after : List Pending) (t : Pending) (s : UiState)
    → s.timers ≡ before ++ (t ∷ after)
    → IsTidy s
    → IsTidy (fire t s)
unfolding fire
fire-IsTidy before after t s e h =
    let timed : IsTimed s t = All_at (IsTimed s) before after t (subst (All (IsTimed s)) e h) in
    dropped_lem t.handle t.toast s (fire t s) timed.known refl refl s.timers h

dismiss-IsTidy : (id : String) (s : UiState) → IsTidy s → IsTidy (dismiss_toast id s)
unfolding dismiss_toast
dismiss-IsTidy id s h = go (Dict.get id s.toast_timeouts) refl
  where
    go :
        (o : Option ℕ)
        → Dict.get id s.toast_timeouts ≡ o
        → let cleared : UiState = clear_timer id o s in
          IsTidy (record cleared { notifications = without_toast id cleared.notifications })
    go (some k) e = dropped_lem k id s _ e refl refl s.timers h
    go none e =
        All-weaken
          (λ t timed.
            other_lem id s (record s { notifications = without_toast id s.notifications }) t
              (λ q.
                absurd (no_timer (sym e ∙ ap (λ x. Dict.get x s.toast_timeouts) q ∙ timed.known)))
              refl refl timed)
          s.timers h

shown_differs :
    (n : ToastNotification) (s : UiState) (t : Pending)
    → is_shown n.id s.notifications ≡ false
    → IsTimed s t
    → n.id ≢ t.toast
shown_differs n s t fresh timed q =
    absurd (clash (sym fresh ∙ ap (λ x. is_shown x s.notifications) q ∙ timed.shown))
  where
    clash : false ≡ true → ⊥
    clash h = cc

show-IsTidy :
    (n : ToastNotification) (s : UiState)
    → is_shown n.id s.notifications ≡ false
    → IsTidy s
    → IsTidy (show_toast n s)
unfolding show_toast set_timer
show-IsTidy n s fresh h = elim (Bool-cases (ltb 0 (duration_of n))) [
  | inl timed ↦ rw timed (
      All-append (IsTimed with_timer) s.timers _
        (All-weaken
          (λ t old. record {
            known =
                Dict.get-set_ne n.id t.toast s.next_handle s.toast_timeouts
                  (shown_differs n s t fresh old)
                ∙ old.known;
            shown = is_shown-append t.toast s.notifications n old.shown;
          })
          s.timers h)
        (
          record {
            known = Dict.get-set_self n.id s.next_handle s.toast_timeouts;
            shown = is_shown_last n s.notifications;
          },
          tt,
        ))
  | inr stays ↦ rw stays (
      All-weaken
        (λ t old. record {
          known = old.known;
          shown = is_shown-append t.toast s.notifications n old.shown;
        })
        s.timers h)
]
  where
    with_timer : UiState
    with_timer = set_timer n.id (record s { notifications = s.notifications ++ (n ∷ []) })

Step-IsTidy : {s t : UiState} → Step s t → IsTidy s → IsTidy t
unfolding set_theme toggle_sidebar set_sidebar_open set_page_leaving
Step-IsTidy (themes theme s) h =
    All-weaken (λ t old. record { known = old.known; shown = old.shown }) s.timers h
Step-IsTidy (toggles s) h =
    All-weaken (λ t old. record { known = old.known; shown = old.shown }) s.timers h
Step-IsTidy (opens_sidebar b s) h =
    All-weaken (λ t old. record { known = old.known; shown = old.shown }) s.timers h
Step-IsTidy (leaves b s) h =
    All-weaken (λ t old. record { known = old.known; shown = old.shown }) s.timers h
Step-IsTidy (shows n s fresh) h = show-IsTidy n s fresh h
Step-IsTidy (fires before after t s e) h = fire-IsTidy before after t s e h
Step-IsTidy (dismisses id s) h = dismiss-IsTidy id s h

-- In every state that the store reaches, each pending timer is the one that the map holds for its
-- toast, and its toast is shown.
pub IsReachable-IsTidy : {s : UiState} → IsReachable s → IsTidy s
IsReachable-IsTidy starts = tt
IsReachable-IsTidy (follows r step) = Step-IsTidy step (IsReachable-IsTidy r)
