-- ===== src/Transfer/Overlap/Winning.antt =====
-- A transfer with overlapping handlers once a handler has rebuilt the file and removed its chunks: its
-- report of the file is on its way, or was made.
use shadowchat.Common.{
  ℕ, zero, suc, ◌≡◌, refl, sym, ap, ◌∙◌, ◌⊎◌, inl, inr, List, [], ◌∷◌, ◌++◌, Option, none, some,
  String, true, All, append_assoc,
}
use mathlib.Core.Path.{subst}
use shadowchat.Common.Dict
use shadowchat.Common.Results.{ok}
use shadowchat.Platform.{Platform}
use shadowchat.Platform.Crypto.{Bytes}
use shadowchat.Transfer.State.{IncomingTransferState, Coordinator, Event, finished}
use shadowchat.Transfer.Receive.Arrival.{Expected}
use shadowchat.Transfer.Overlap.{
  Stage, saving, saved, reading, read, writing, written, checking, marking, fetching, clearing,
  closing, closed, Moved, id_of, stage_at, put_at, resume,
}
use shadowchat.Transfer.Overlap.Ending.{All-stage_at, All-put_at}
use shadowchat.Transfer.Overlap.Frame.{Framed, resume-Framed}

-- Among the events is the completed file, with its name.
pub record Reports (id name : String) (blob : Bytes) (es : List Event) : Type 0 where
  pub before : List Event
  pub after : List Event
  pub listed : es ≡ before ++ (finished id blob name ∷ after)

Reports-append :
    {id name : String} {blob : Bytes} {es : List Event} (more : List Event)
    → Reports id name blob es
    → Reports id name blob (es ++ more)
Reports-append more r = record {
  before = r.before;
  after = r.after ++ more;
  listed = ap (λ t. t ++ more) r.listed ∙ append_assoc r.before _ more;
}

module _ {Key : Type 0} (x : Expected Key) (whole : Bytes) where
  -- A handler that holds the rebuilt file.
  abbrev pub Winner : Stage → Type 0
  Winner (closing id meta r) = (id ≡ x.id) × (r ≡ ok whole)
  Winner (closed id r) = (id ≡ x.id) × (r ≡ ok whole)
  Winner _ = ⊥

  abbrev pub HasWinner : List Stage → Type 0
  HasWinner [] = ⊥
  HasWinner (s ∷ ss) = Winner s ⊎ HasWinner ss

  pub put_at-HasWinner :
      (i : ℕ) (n s : Stage) (ss : List Stage)
      → stage_at i ss ≡ some s
      → Winner n
      → HasWinner (put_at i (some n) ss)
  put_at-HasWinner i n s [] h w = cc
  put_at-HasWinner zero n s (y ∷ ss) h w = inl w
  put_at-HasWinner (suc i) n s (y ∷ ss) h w = inr (put_at-HasWinner i n s ss h w)

  blob_stays :
      (i : ℕ) (n : Option Stage) (s : Stage) (ss : List Stage)
      → stage_at i ss ≡ some s
      → HasWinner ss
      → Winner s ⊎ HasWinner (put_at i n ss)
  blob_stays i n s [] h w = absurd w
  blob_stays zero n s (y ∷ ss) h (inl w) = let e : y ≡ s = cc in inl (subst Winner e w)
  blob_stays zero none s (y ∷ ss) h (inr w) = inr w
  blob_stays zero (some n) s (y ∷ ss) h (inr w) = inr (inr w)
  blob_stays (suc i) n s (y ∷ ss) h (inl w) = inr (inl w)
  blob_stays (suc i) n s (y ∷ ss) h (inr w) = elim (blob_stays i n s ss h w) [
    | inl here ↦ inl here
    | inr there ↦ inr (inr there)
  ]

  abbrev pub IsReported : List Event → Type 0
  IsReported = Reports x.id x.meta.file_name whole

  pub record Won {DB : Type 0} (o : IncomingTransferState Key) (c : Coordinator Key DB)
      (ss : List Stage) : Type 0 where
    pub same_meta : o.meta ≡ x.meta
    pub listens : c.handlers.on_complete ≡ true
    pub gone : Dict.get x.id c.active_incoming ≡ none
    pub ours : All (λ s. id_of s ≡ x.id) ss
    pub ending : HasWinner ss ⊎ IsReported c.events

  module _ {DB : Type 0} (p : Platform Key DB) (i : ℕ) (o : IncomingTransferState Key)
      (c : Coordinator Key DB) (ss : List Stage) where
    -- A step of the handler that holds the file.
    blob_step :
        (s : Stage)
        → stage_at i ss ≡ some s
        → o.meta ≡ x.meta
        → c.handlers.on_complete ≡ true
        → Winner s
        → HasWinner (put_at i (resume p s o c).next ss)
          ⊎ IsReported (resume p s o c).coordinator.events
    unfolding resume
    blob_step (closing id meta r) at m l w = inl (put_at-HasWinner i (closed id r) _ ss at w)
    blob_step (closed id r) at m l w =
        rw (w.1, l) (inr (record { before = c.events; after = []; listed = rw (w.0, m) refl }))
    blob_step (saving r) at m l w = absurd w
    blob_step (saved id) at m l w = absurd w
    blob_step (reading id) at m l w = absurd w
    blob_step (read id meta) at m l w = absurd w
    blob_step (writing id meta progress) at m l w = absurd w
    blob_step (written id progress) at m l w = absurd w
    blob_step (checking id) at m l w = absurd w
    blob_step (marking id meta) at m l w = absurd w
    blob_step (fetching id meta) at m l w = absurd w
    blob_step (clearing id meta r) at m l w = absurd w

    pub resume-Won :
        (s : Stage)
        → stage_at i ss ≡ some s
        → Won o c ss
        → let m = resume p s o c in Won m.object m.coordinator (put_at i m.next ss)
    resume-Won s at w = record {
      same_meta = f.same_meta ∙ w.same_meta;
      listens = ap (λ h. h.on_complete) f.handlers ∙ w.listens;
      gone = f.stays_gone w.gone;
      ours = All-put_at _ i m.next ss f.ours w.ours;
      ending = elim w.ending [
        | inl won ↦ elim (blob_stays i m.next s ss at won) [
          | inl here ↦ blob_step s at w.same_meta w.listens here
          | inr there ↦ inl there
        ]
        | inr told ↦ inr (subst IsReported (sym f.added.1) (Reports-append f.added.0 told))
      ];
    }
      where
        m : Moved Key DB
        m = resume p s o c

        f : Framed x.id o c m
        f =
            subst (λ id. Framed id o c m) (All-stage_at (λ s. id_of s ≡ x.id) i s ss at w.ours)
              (resume-Framed p s o c)
