-- ===== src/Transfer/Overlap/Arrivals.antt =====
-- The arrival of a packet while handlers overlap, before the chunks are removed.
use shadowchat.Common.{
  ℕ, ◌<◌, ◌≡◌, refl, inl, inr, List, [], ◌∷◌, ◌++◌, Option, none, some, true, false, arith, elem,
}
use shadowchat.Common.Dict
use shadowchat.Common.Members.{elem-append}
use shadowchat.Platform.{Platform}
use shadowchat.Platform.Crypto.{Bytes}
use shadowchat.Platform.Tables.{KeepsRows}
use shadowchat.Transfer.State.{IncomingTransferState, Coordinator, put_incoming}
use shadowchat.Transfer.Receive.Rebuild.{row}
use shadowchat.Transfer.Receive.Arrival.{Expected, payload}
use shadowchat.Transfer.Overlap.{Stage, saving, mark_chunk}
use shadowchat.Transfer.Overlap.Ending.{total_of-append, All-append_one}
use shadowchat.Transfer.Overlap.Gathering.{
  pends, uncounted, late, reassembles, is_in-append, Good, Gathering,
}

module _ {Key DB : Type 0} (p : Platform Key DB) (k : KeepsRows p.dexie) (x : Expected Key)
    (whole : Bytes) where
  -- A new chunk arrives.
  pub marked-Gathering :
      (j : ℕ) {sent kept_rows : List ℕ} {o : IncomingTransferState Key} {c : Coordinator Key DB}
      {ss : List Stage}
      → j < x.total
      → elem j o.received_chunks ≡ false
      → Dict.get x.id c.active_incoming ≡ some o
      → Gathering p k x whole sent kept_rows o c ss
      → Gathering p k x whole
          (sent ++ (j ∷ []))
          kept_rows
          (mark_chunk j o)
          (put_incoming x.id (mark_chunk j o) c)
          (ss ++ (saving (row x.id (payload x) j) ∷ []))
  marked-Gathering j {sent} {kept_rows} {o} {c} {ss} in_range new active g =
      let n = saving (row x.id (payload x) j) in
      let here = Dict.get-set_self x.id (mark_chunk j o) c.active_incoming in
      record {
        running = g.running;
        kept = g.kept;
        same_key = g.same_key;
        same_meta = g.same_meta;
        same_total = g.same_total;
        listens = g.listens;
        stored = g.stored;
        distinct = g.distinct;
        below = g.below;
        ledger = λ a. ground (
          arith,
          total_of-append (pends a) ss n,
          is_in-append a j o.received_chunks,
          g.ledger a,
          new,
        );
        tallied = omega (arith, total_of-append uncounted ss n, g.tallied);
        good = All-append_one (Good p k x whole) ss n g.good (refl, in_range);
        covered = elim g.covered [
          | inl seen ↦ inl (
            here,
            λ a h.
                ground (arith, elem-append a j sent, elem-append a j o.received_chunks, seen.1 a),
          )
          | inr gone ↦ absurd (not_gone active gone.0)
        ];
        last_test = elim g.last_test [
          | inl few ↦ inl few
          | inr l ↦ inr (omega (arith, total_of-append late ss n))
        ];
        ready = λ h.
            absurd (not_gone active (g.ready (omega (arith, total_of-append reassembles ss n))).0);
      }
    where
      not_gone : {found : Option (IncomingTransferState Key)} → found ≡ some o → found ≡ none → ⊥
      not_gone a b = cc

  -- A chunk that came before changes nothing.
  pub again-Gathering :
      (j : ℕ) {sent kept_rows : List ℕ} {o : IncomingTransferState Key} {c : Coordinator Key DB}
      {ss : List Stage}
      → elem j o.received_chunks ≡ true
      → Gathering p k x whole sent kept_rows o c ss
      → Gathering p k x whole (sent ++ (j ∷ [])) kept_rows o c ss
  again-Gathering j {sent} {kept_rows} {o} {c} old g = record {
    running = g.running;
    kept = g.kept;
    same_key = g.same_key;
    same_meta = g.same_meta;
    same_total = g.same_total;
    listens = g.listens;
    stored = g.stored;
    distinct = g.distinct;
    below = g.below;
    ledger = g.ledger;
    tallied = g.tallied;
    good = g.good;
    covered = elim g.covered [
      | inl seen ↦ inl (seen.0, λ a h. ground (arith, elem-append a j sent, seen.1 a))
      | inr gone ↦ inr gone
    ];
    last_test = g.last_test;
    ready = g.ready;
  }

  -- A transfer that is out of the map takes no more chunks.
  pub gone-Gathering :
      (j : ℕ) {sent kept_rows : List ℕ} {o : IncomingTransferState Key} {c : Coordinator Key DB}
      {ss : List Stage}
      → Dict.get x.id c.active_incoming ≡ none
      → Gathering p k x whole sent kept_rows o c ss
      → Gathering p k x whole (sent ++ (j ∷ [])) kept_rows o c ss
  gone-Gathering j {sent} {kept_rows} {o} {c} none_left g = record {
    running = g.running;
    kept = g.kept;
    same_key = g.same_key;
    same_meta = g.same_meta;
    same_total = g.same_total;
    listens = g.listens;
    stored = g.stored;
    distinct = g.distinct;
    below = g.below;
    ledger = g.ledger;
    tallied = g.tallied;
    good = g.good;
    covered = elim g.covered [ inl seen ↦ absurd (clash seen.0 none_left) | inr gone ↦ inr gone ];
    last_test = g.last_test;
    ready = g.ready;
  }
    where
      clash : {found : Option (IncomingTransferState Key)} → found ≡ some o → found ≡ none → ⊥
      clash a b = cc
