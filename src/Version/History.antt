-- ===== src/Version/History.antt =====
-- A snapshot appends one version to the history of its entity and changes nothing else.
use cypher_lite.Prelude.{
  ℕ, ◌+◌, ◌-◌, ◌≤◌, ◌<◌, ◌≡◌, ◌≢◌, ◌&&◌, ==_iff, Bool-cases, ◌⊎◌, refl, ◌∙◌, none, some, [], arith,
  leb, ◌==◌, if◌then◌else◌, true, false, u64_mod, add_u64, Option-cases, inl, inr,
}
use cypher_lite.Core.{NodeRecord}
use cypher_lite.OrdMap
use cypher_lite.OrdMap.{OrdMap, entry_or}
use cypher_lite.OrdMap.Laws.{get-nil, get-insert}
use cypher_lite.Version.{
  VersionStore, VersionRecord, node, new_version_store, key, snapshot, snapshot_node, get_version,
  get_latest_version, version_count, insert_loaded_record,
}

entry_or-insert :
    (k j d v : ℕ) (m : OrdMap ℕ)
    → entry_or j d (OrdMap.insert k v m) ≡ (if k == j then v else entry_or j d m)
unfolding entry_or
entry_or-insert k j d v m = ground (arith, get-insert k j v m)

entry_or-nil : (j d : ℕ) → entry_or j d [] ≡ d
unfolding entry_or
entry_or-nil j d = ground (arith, get-nil {V = ℕ} j)

-- The next sequence number of an entity.
abbrev pub next_of : VersionStore → ℕ → ℕ
next_of s e = entry_or e 1 s.next_seq

-- A store that came about by snapshots and by loading the versions of a file.
pub data Recorded : VersionStore → Type 0 where
  starts : Recorded new_version_store
  snapshots :
      (s : VersionStore) (e : ℕ) (v : VersionRecord)
      → Recorded s
      → e < u64_mod
      → next_of s e + 1 < u64_mod
      → Recorded (snapshot s e v).1
  loads :
      (s : VersionStore) (e q : ℕ) (v : VersionRecord)
      → Recorded s
      → e < u64_mod
      → q + 1 < u64_mod
      → Recorded (insert_loaded_record s e q v)

-- The numbers of an entity's versions are below the next one, which is not 0.
pub record IsNumbered (s : VersionStore) : Type 0 where
  pub positive : (e : ℕ) → 1 ≤ next_of s e
  pub below :
      (e q : ℕ) (v : VersionRecord)
      → e < u64_mod
      → q < u64_mod
      → get_version s e q ≡ some v
      → q < next_of s e

key-injective : (e p f q : ℕ) → p < u64_mod → q < u64_mod → key e p ≡ key f q → (e ≡ f) × (p ≡ q)
key-injective e p f q lp lq h = let same : e ≡ f = omega arith in (same, omega arith)

-- One version goes in under `p`, and the next number becomes `n`.
abbrev put : VersionStore → ℕ → ℕ → VersionRecord → ℕ → VersionStore
put s e p v n = record {
  versions = OrdMap.insert (key e p) v s.versions;
  next_seq = OrdMap.insert e n s.next_seq;
}

next_of-put :
    (s : VersionStore) (e p : ℕ) (v : VersionRecord) (n f : ℕ)
    → next_of (put s e p v n) f ≡ (if e == f then n else next_of s f)
next_of-put s e p v n f = entry_or-insert e f 1 n s.next_seq

get_version-put :
    (s : VersionStore) (e p : ℕ) (v : VersionRecord) (n f q : ℕ)
    → p < u64_mod
    → q < u64_mod
    → get_version (put s e p v n) f q ≡ (if e == f && p == q then some v else get_version s f q)
unfolding get_version
get_version-put s e p v n f q lp lq = elim (Bool-cases (key e p == key f q)) [
  | inl same ↦
      let at = key-injective e p f q lp lq ((==_iff (key e p) (key f q)).0 same) in
      let both : (e == f && p == q) ≡ true = ground arith in
      get-insert (key e p) (key f q) v s.versions ∙ (rw (same, both) refl)
  | inr other ↦
      let apart : (e == f && p == q) ≡ false = ground arith in
      get-insert (key e p) (key f q) v s.versions ∙ (rw (other, apart) refl)
]

latest-put :
    (s : VersionStore) (e p : ℕ) (v : VersionRecord) (n : ℕ)
    → 1 ≤ p
    → n ≡ p + 1
    → get_latest_version (put s e p v n) e ≡ some v
unfolding get_latest_version
latest-put s e p v n positive next =
    let number : OrdMap.get e (OrdMap.insert e n s.next_seq) ≡ some n =
      ground (arith, get-insert e e n s.next_seq) in
    let old : leb n 1 ≡ false = ground arith in
    let at : n - 1 ≡ p = omega arith in
    let read : OrdMap.get (key e p) (OrdMap.insert (key e p) v s.versions) ≡ some v =
      ground (arith, get-insert (key e p) (key e p) v s.versions) in
    rw (get_latest_version, number, old, at) read

put-IsNumbered :
    (s : VersionStore) (e p : ℕ) (v : VersionRecord) (n : ℕ)
    → p < u64_mod
    → next_of s e ≤ n
    → p < n
    → IsNumbered s
    → IsNumbered (put s e p v n)
put-IsNumbered s e p v n lp grows above good = record {
  positive = λ f. ground (arith, next_of-put s e p v n f, good.positive f);
  below = λ f q w lf lq h.
      ground (
        arith,
        next_of-put s e p v n f,
        get_version-put s e p v n f q lp lq,
        good.below f q w lf lq,
      );
}

-- However versions came into the store, those of an entity have numbers below the next one, so that
-- the next snapshot of it overwrites none.
pub Recorded-IsNumbered : (s : VersionStore) → Recorded s → IsNumbered s
unfolding new_version_store snapshot insert_loaded_record get_version
Recorded-IsNumbered _ starts = record {
  positive = λ e. ground (arith, entry_or-nil e 1);
  below = λ e q v le lq h. absurd (ground (arith, get-nil {V = VersionRecord} (key e q)));
}
Recorded-IsNumbered _ (snapshots s e v before le room) =
    put-IsNumbered s e (next_of s e) v (add_u64 (next_of s e) 1) (omega arith) (omega arith)
      (omega arith) (Recorded-IsNumbered s before)
Recorded-IsNumbered _ (loads s e p v before le room) =
    put-IsNumbered s e p v (if leb (next_of s e) p then add_u64 p 1 else next_of s e) (omega arith)
      (ground arith) (ground arith) (Recorded-IsNumbered s before)

-- What a snapshot appends.
pub record Appends (s : VersionStore) (e : ℕ) (v : VersionRecord) (r : ℕ × VersionStore)
    : Type 0 where
  pub new_number : get_version s e r.0 ≡ none
  pub latest : get_latest_version r.1 e ≡ some v
  pub counted : version_count r.1 e ≡ version_count s e + 1
  pub others :
      (f q : ℕ) → q < u64_mod → (f ≢ e) ⊎ (q ≢ r.0) → get_version r.1 f q ≡ get_version s f q

-- A snapshot of a node takes a number that no version of it has, becomes its latest version, adds one
-- to its count, and changes no other version of any entity.
pub snapshot_node-Appends :
    (s : VersionStore) (e : ℕ) (r : NodeRecord)
    → Recorded s
    → e < u64_mod
    → next_of s e + 1 < u64_mod
    → Appends s e (node r) (snapshot_node s e r)
unfolding snapshot_node snapshot version_count
snapshot_node-Appends s e r recorded le room =
    let good = Recorded-IsNumbered s recorded in
    let seq = next_of s e in
    let n = add_u64 seq 1 in
    let positive : 1 ≤ seq = good.positive e in
    record {
      new_number = elim (Option-cases (get_version s e seq)) [
        | inl unused ↦ unused
        | inr (w, found) ↦
            absurd (let lt = good.below e seq w le (omega arith) found in omega arith)
      ];
      latest = latest-put s e seq (node r) n positive (omega arith);
      counted = ground (arith, next_of-put s e seq (node r) n e);
      others =
          λ f q lq other. ground (arith, get_version-put s e seq (node r) n f q (omega arith) lq);
    }
