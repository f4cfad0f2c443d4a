-- ===== src/Lk/Partition/Lookup.antt =====
-- The partition of a name: `partition_get_index`, `partition_get_size` and `partition_get_offset` of
-- bootable/lk/platform/msm_shared/partition_parser.c.
use android4_4_4_r.Prelude.{
  ℕ, zero, suc, ◌+◌, ◌*◌, ◌%◌, ◌^◌, ◌≤◌, ◌<◌, ◌≡◌, ◌≢◌, ◌↔◌, subst, refl, arith, List, [], ◌∷◌,
  length, get_or, All, Bool, Bool-cases, ◌⊎◌, inl, inr, true, ◌&&◌, Option, none, some, ltb, leb,
  leb→le, ◌==◌, if◌then◌else◌, Text, has_prefix, c_string,
}
use android4_4_4_r.Lk.Partition.{num_partitions, block_size, Table, zeroed}

-- `!memcmp(name, e, strlen(name)) && strlen(name) == strlen(e)`
unfoldable pub same_name : Text → List ℕ → Bool
unfolding has_prefix c_string
same_name name e = has_prefix name e && length name == length (c_string e)

abbrev pub name_at : Table → ℕ → List ℕ
name_at t n = (get_or t.partition_entries n zeroed).name

-- the loop from `n` on, with `k` entries left
unfoldable pub index_from : ℕ → ℕ → Table → Text → Option ℕ
unfolding same_name
index_from zero n t name = none
index_from (suc k) n t name =
    let rest = index_from k (n + 1) t name in if same_name name (name_at t n) then some n else rest

-- `none` is INVALID_PTN.
unfoldable pub partition_get_index : Table → Text → Option ℕ
unfolding index_from
partition_get_index t name =
    if leb num_partitions t.partition_count then none else index_from t.partition_count 0 t name

unfoldable pub partition_get_size : Table → Option ℕ → ℕ
partition_get_size t none = 0
partition_get_size t (some n) = (get_or t.partition_entries n zeroed).size * block_size % 2 ^ 64

unfoldable pub partition_get_offset : Table → Option ℕ → ℕ
partition_get_offset t none = 0
partition_get_offset t (some n) =
    (get_or t.partition_entries n zeroed).first_lba * block_size % 2 ^ 64

-- A name without a terminator is matched by the buffers that hold this string.
pub same_name_iff :
    (name : Text) (e : List ℕ)
    → All (λ c. 0 < c) name
    → (same_name name e ≡ true) ↔ (c_string e ≡ name)
unfolding same_name has_prefix c_string
same_name_iff [] [] h = ground arith
same_name_iff [] (c ∷ e) h = ground arith
same_name_iff (a ∷ name) [] h = ground arith
same_name_iff (a ∷ name) (c ∷ e) h = ground (arith, h, same_name_iff name e h.1)

-- The answer of a search through the entries from `n` to before `m`.
abbrev pub IsFound : Table → Text → ℕ → ℕ → Option ℕ → Type 0
IsFound t name n m none = (i : ℕ) → n ≤ i → i < m → c_string (name_at t i) ≢ name
IsFound t name n m (some k) =
    (n ≤ k)
    × (k < m)
    × (c_string (name_at t k) ≡ name)
    × ((i : ℕ) → n ≤ i → i < k → c_string (name_at t i) ≢ name)

-- Neither the `n`-th entry nor a later one before `m` has the name.
still_none :
    (t : Table) (name : Text) (n m : ℕ)
    → c_string (name_at t n) ≢ name
    → ((i : ℕ) → n + 1 ≤ i → i < m → c_string (name_at t i) ≢ name)
    → (i : ℕ) → n ≤ i
    → i < m
    → c_string (name_at t i) ≢ name
still_none t name n m here later i l u = elim (Bool-cases (ltb n i)) [
  | inl e ↦ later i (ground (arith, e)) u
  | inr e ↦ λ eq. here (subst (λ k. c_string (name_at t k) ≡ name) (ground (arith, e, l)) eq)
]

IsFound-step :
    (t : Table) (name : Text) (n m : ℕ) (r : Option ℕ)
    → c_string (name_at t n) ≢ name
    → IsFound t name (n + 1) m r
    → IsFound t name n m r
IsFound-step t name n m none here later = still_none t name n m here later
IsFound-step t name n m (some k) here (l, u, e, later) =
    (omega (arith, l), u, e, still_none t name n k here later)

index_from-IsFound :
    (k n : ℕ) (t : Table) (name : Text)
    → All (λ c. 0 < c) name
    → IsFound t name n (n + k) (index_from k n t name)
unfolding index_from
index_from-IsFound zero n t name h = λ i l u. absurd (omega (arith, l, u))
index_from-IsFound (suc k) n t name h =
    let (sound, complete) = same_name_iff name (name_at t n) h in
    elim (Bool-cases (same_name name (name_at t n))) [
      | inl e ↦
          rw (index_from, e)
            (omega arith, omega arith, sound e, λ i l u. absurd (omega (arith, l, u)))
      | inr e ↦
          let rest =
            subst (λ m. IsFound t name (n + 1) m (index_from k (n + 1) t name)) (omega arith)
              (index_from-IsFound k (n + 1) t name h) in
          let here : c_string (name_at t n) ≢ name =
            λ eq. absurd (ground (arith, e, complete eq)) in
          rw (index_from, e)
            (IsFound-step t name n (n + suc k) (index_from k (n + 1) t name) here rest)
    ]

-- `partition_get_index` gives the first entry in use whose name is the one that is asked for, and
-- INVALID_PTN exactly where there is none, or where all 32 entries are in use.
pub partition_get_index-IsFound :
    (t : Table) (name : Text)
    → All (λ c. 0 < c) name
    → ((32 ≤ t.partition_count) × (partition_get_index t name ≡ none))
      ⊎ IsFound t name 0 t.partition_count (partition_get_index t name)
unfolding partition_get_index
partition_get_index-IsFound t name h = elim (Bool-cases (leb 32 t.partition_count)) [
  | inl e ↦ inl (leb→le 32 t.partition_count e, rw (partition_get_index, e) refl)
  | inr e ↦ inr (
      rw (partition_get_index, e)
        (subst (λ m. IsFound t name 0 m (index_from t.partition_count 0 t name)) (omega arith)
          (index_from-IsFound t.partition_count 0 t name h)))
]
