-- ===== src/Transfer/Overlap/Gathering.antt =====
-- A transfer while its handlers overlap, up to the removal of its chunks from the database: what holds
-- between any two steps, and the steps that keep it.
use shadowchat.Common.{
  ℕ, ◌+◌, ◌≤◌, ◌<◌, ◌≡◌, ap, ◌∙◌, ◌⊎◌, inl, inr, List, [], ◌∷◌, ◌++◌, map, none, some, true, false,
  arith, length, All, elem, filter, ◌==◌, if◌then◌else◌,
}
use shadowchat.Common.Dict
use shadowchat.Common.Members.{elem-append}
use shadowchat.Common.Sorting.{Distinct}
use shadowchat.Common.Results.{ok}
use shadowchat.Platform.{Platform}
use shadowchat.Platform.Crypto.{Bytes}
use shadowchat.Platform.Tables.{KeepsRows, of_transfer}
use shadowchat.Transfer.State.{IncomingTransferState, Coordinator}
use shadowchat.Transfer.Receive.Rebuild.{row}
use shadowchat.Transfer.Receive.Arrival.{Expected, payload}
use shadowchat.Transfer.Overlap.{
  Stage, saving, saved, checking, marking, fetching, clearing, closing, closed, id_of, stage_at,
  put_at, total_of,
}
use shadowchat.Transfer.Overlap.Ending.{total_of-put_at, All-put_at}

-- Weights of a stage: whether the chunk `i` is on its way into the database; whether a stored chunk is
-- not counted yet; whether a counted chunk has its test of the count before it, or passed it; and
-- whether the handler is in `reassembleFile`.
abbrev pub pends : ℕ → Stage → ℕ
pends i (saving r) = if r.chunk_index == i then 1 else 0
pends i _ = 0

abbrev pub uncounted : Stage → ℕ
uncounted (saved id) = 1
uncounted _ = 0

abbrev pub late : Stage → ℕ
late (saving r) = 0
late (saved id) = 0
late (closing id meta r) = 0
late (closed id r) = 0
late _ = 1

abbrev pub reassembles : Stage → ℕ
reassembles (checking id) = 1
reassembles (marking id meta) = 1
reassembles (fetching id meta) = 1
reassembles (clearing id meta r) = 1
reassembles _ = 0

abbrev pub is_in : ℕ → List ℕ → ℕ
is_in i xs = if elem i xs then 1 else 0

-- The two stages weigh the same, and the next one is no further from `reassembleFile`.
abbrev pub SameWeights : Stage → Stage → Type 0
SameWeights s n =
    ((i : ℕ) → pends i n ≡ pends i s)
    × (uncounted n ≡ uncounted s)
    × (late n ≡ late s)
    × (reassembles n ≤ reassembles s)

pub is_in-append :
    (i j : ℕ) (xs : List ℕ) → is_in i (xs ++ (j ∷ [])) ≡ (if j == i then 1 else is_in i xs)
is_in-append i j xs = ground (arith, elem-append i j xs)

pub total_of-le :
    (f : Stage → ℕ) (i : ℕ) (s : Stage) (ss : List Stage)
    → stage_at i ss ≡ some s
    → f s ≤ total_of f ss
total_of-le f i s ss h = omega (arith, total_of-put_at f i none s ss h)

module _ {Key DB : Type 0} (p : Platform Key DB) (k : KeepsRows p.dexie) (x : Expected Key)
    (whole : Bytes) where
  -- What holds of a stage by itself: its transfer, the row that it saves, and that the file was rebuilt.
  abbrev pub Good : Stage → Type 0
  Good (saving r) = (r ≡ row x.id (payload x) r.chunk_index) × (r.chunk_index < x.total)
  Good (clearing id meta r) = (id ≡ x.id) × (r ≡ ok whole)
  Good (closing id meta r) = ⊥
  Good (closed id r) = ⊥
  Good s = id_of s ≡ x.id

  -- The packets of `sent` have arrived, and the chunks `kept_rows` are in the database.
  pub record Gathering (sent kept_rows : List ℕ) (o : IncomingTransferState Key)
      (c : Coordinator Key DB) (ss : List Stage) : Type 0 where
    pub running : o.paused ≡ false
    pub kept : o.cancelled ≡ false
    pub same_key : o.file_key ≡ x.key
    pub same_meta : o.meta ≡ x.meta
    pub same_total : o.total_chunks ≡ x.total
    pub listens : c.handlers.on_complete ≡ true
    pub stored :
        filter (of_transfer x.id) (k.chunk_rows c.db) ≡ map (row x.id (payload x)) kept_rows
    pub distinct : Distinct (λ i. i) kept_rows
    pub below : All (λ i. i < x.total) kept_rows
    pub ledger : (i : ℕ) → total_of (pends i) ss + is_in i kept_rows ≡ is_in i o.received_chunks
    pub tallied : o.chunks_received_count + total_of uncounted ss ≡ length kept_rows
    pub good : All Good ss
    pub covered :
        ((Dict.get x.id c.active_incoming ≡ some o)
          × ((i : ℕ) → elem i sent ≡ true → elem i o.received_chunks ≡ true))
        ⊎ ((Dict.get x.id c.active_incoming ≡ none) × (x.total ≤ o.chunks_received_count))
    pub last_test : (o.chunks_received_count < x.total) ⊎ (1 ≤ total_of late ss)
    pub ready :
        1 ≤ total_of reassembles ss
        → (Dict.get x.id c.active_incoming ≡ none) × (x.total ≤ o.chunks_received_count)

  module _ (i : ℕ) {sent kept_rows : List ℕ} {o : IncomingTransferState Key}
      {c : Coordinator Key DB} {ss : List Stage} where
    -- A step that leaves the shared object, the map and the rows of the chunks as they are.
    pub keeps-Gathering :
        (s n : Stage) (c' : Coordinator Key DB)
        → stage_at i ss ≡ some s
        → SameWeights s n
        → Good n
        → c'.active_incoming ≡ c.active_incoming
        → c'.handlers ≡ c.handlers
        → k.chunk_rows c'.db ≡ k.chunk_rows c.db
        → Gathering sent kept_rows o c ss
        → Gathering sent kept_rows o c' (put_at i (some n) ss)
    keeps-Gathering s n c' at w fine same_map same_handlers same_rows g =
        let late_lem = total_of-put_at late i (some n) s ss at in
        record {
          running = g.running;
          kept = g.kept;
          same_key = g.same_key;
          same_meta = g.same_meta;
          same_total = g.same_total;
          listens = ap (λ h. h.on_complete) same_handlers ∙ g.listens;
          stored = ap (filter (of_transfer x.id)) same_rows ∙ g.stored;
          distinct = g.distinct;
          below = g.below;
          ledger =
              λ j. omega (arith, total_of-put_at (pends j) i (some n) s ss at, w.0 j, g.ledger j);
          tallied = omega (arith, total_of-put_at uncounted i (some n) s ss at, w.1, g.tallied);
          good = All-put_at Good i (some n) ss fine g.good;
          covered = rw same_map g.covered;
          last_test = elim g.last_test [
            | inl few ↦ inl few
            | inr l ↦ inr (omega (arith, late_lem, w.2))
          ];
          ready = λ h.
              rw same_map
                (g.ready (omega (arith, total_of-put_at reassembles i (some n) s ss at, w.3)));
        }
