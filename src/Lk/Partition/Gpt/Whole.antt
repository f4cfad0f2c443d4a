-- ===== src/Lk/Partition/Gpt/Whole.antt =====
-- The reading of the partition table as a whole ends, within the array.
use android4_4_4_r.Prelude.{
  ℕ, ◌+◌, ◌-◌, ◌*◌, ◌/◌, ◌^◌, ◌<◌, ◌≡◌, subst, sym, refl, arith, List, Bool-cases, Option-cases,
  ◌⊎◌, inl, inr, not, Option, none, some, ◌==◌, if◌then◌else◌,
}
use android4_4_4_r.Lk.Bytes.{get_lword, get_llword}
use android4_4_4_r.Lk.Partition.{Table, block, Card}
use android4_4_4_r.Lk.Partition.Mbr.{IsTable, Answer-cases, mmc_boot_read_mbr-IsTable}
use android4_4_4_r.Lk.Partition.Gpt.{
  Header, partition_parse_gpt_header, Outcome, returned, panicked, strayed, gpt_entries,
  read_backup, from_header, mmc_boot_read_gpt, with_status, partition_read_table,
}
use android4_4_4_r.Lk.Partition.Gpt.Ends.{IsSafe, Ends, gpt_loop-Ends}

-- A block has not the signature of a GPT header, or its count of entries is not the largest, which
-- the counter of the loop cannot go beyond.
abbrev pub IsCountable : List ℕ → Type 0
IsCountable b = (partition_parse_gpt_header b ≡ none) ⊎ (get_lword 80 b + 1 < 2 ^ 32)

-- The header that is read from a block has the block's count.
parse-count :
    (b : List ℕ) (h : Header)
    → IsCountable b
    → partition_parse_gpt_header b ≡ some h
    → h.max_partition_count + 1 < 2 ^ 32
unfolding partition_parse_gpt_header
parse-count b h (inl bad) e = absurd (ground (arith, bad, e))
parse-count b h (inr m) e = ground (arith, m, e)

gpt_entries-Ends :
    (card : Card) (h : Header) (b : List ℕ) (t : Table)
    → h.max_partition_count + 1 < 2 ^ 32
    → t.partition_count ≡ 0
    → IsTable t
    → Ends (gpt_entries card h b t)
gpt_entries-Ends card h b t m c s =
    gpt_loop-Ends 10 card h (get_llword 72 b) 0 0 t m c (omega (arith, c)) s

read_backup-Ends :
    (card : Card) (capacity : ℕ) (t : Table)
    → ((at : ℕ) (b : List ℕ) → card at ≡ block b → IsCountable b)
    → t.partition_count ≡ 0
    → IsTable t
    → Ends (read_backup card capacity t)
unfolding read_backup
read_backup-Ends card capacity t m c s =
    let sectors = capacity / 512 in
    elim (Bool-cases (sectors == 0)) [
      | inl none_left ↦ (panicked, rw (read_backup, none_left) refl, tt)
      | inr some_left ↦ elim (Answer-cases (card ((sectors - 1) * 512))) [
        | inl (e, q) ↦ (returned t e, rw (read_backup, some_left) (rw q refl), s)
        | inr (b, q) ↦ elim (Option-cases (partition_parse_gpt_header b)) [
          | inl bad ↦ (returned t 1, rw (read_backup, some_left) (rw q (rw bad refl)), s)
          | inr (h, good) ↦
              let n = parse-count b h (m ((sectors - 1) * 512) b q) good in
              let (r, eq, safe) = gpt_entries-Ends card h b t n c s in
              (r, rw (read_backup, some_left) (rw q (rw good eq)), safe)
        ]
      ]
    ]

from_header-Ends :
    (card : Card) (capacity : ℕ) (b : List ℕ) (t : Table)
    → ((at : ℕ) (b : List ℕ) → card at ≡ block b → IsCountable b)
    → IsCountable b
    → t.partition_count ≡ 0
    → IsTable t
    → Ends (from_header card capacity b t)
unfolding from_header
from_header-Ends card capacity b t m g c s = elim (Option-cases (partition_parse_gpt_header b)) [
  | inl bad ↦ rw (from_header, bad) (read_backup-Ends card capacity t m c s)
  | inr (h, good) ↦
      rw (from_header, good) (gpt_entries-Ends card h b t (parse-count b h g good) c s)
]

pub mmc_boot_read_gpt-Ends :
    (card : Card) (capacity : ℕ) (garbage : List ℕ) (t : Table)
    → ((at : ℕ) (b : List ℕ) → card at ≡ block b → IsCountable b)
    → IsCountable garbage
    → IsTable t
    → Ends (mmc_boot_read_gpt card capacity garbage t)
unfolding mmc_boot_read_gpt
mmc_boot_read_gpt-Ends card capacity garbage t0 m g s0 =
    let t : Table = record t0 { partition_count = 0 } in
    let s : IsTable t = record {
      slots = s0.slots;
      counted = omega arith;
      ext3 = s0.ext3;
      vfat = s0.vfat;
    } in
    elim (Answer-cases (card 512)) [
      | inl (e, q) ↦ rw q (from_header-Ends card capacity garbage t m g refl s)
      | inr (b, q) ↦ rw q (from_header-Ends card capacity b t m (m 512 b q) refl s)
    ]

outcome-Ends : (r : Outcome) → IsSafe r → Ends (with_status (some r))
outcome-Ends (returned t e) safe = (returned t (if e == 0 then 0 else 1), refl, safe)
outcome-Ends panicked safe = (panicked, refl, tt)
outcome-Ends strayed safe = (strayed, refl, tt)

with_status-Ends : (o : Option Outcome) → Ends o → Ends (with_status o)
with_status-Ends o (r, e, safe) = subst (λ o. Ends (with_status o)) (sym e) (outcome-Ends r safe)

-- Whatever a card holds, `partition_read_table` comes to an end, if no block with the signature of a
-- GPT header has 2^32 - 1 for its count of entries: within 32 extended records, and within ten
-- blocks of entries. Where it returns, the array has its 32 entries, of which at most so many are in use.
pub partition_read_table-Ends :
    (card : Card) (capacity : ℕ) (garbage : List ℕ) (t : Table)
    → ((at : ℕ) (b : List ℕ) → card at ≡ block b → IsCountable b)
    → IsCountable garbage
    → IsTable t
    → Ends (partition_read_table card capacity garbage t)
unfolding partition_read_table
partition_read_table-Ends card capacity garbage t m g s =
    let (t', e, eq, s') = mmc_boot_read_mbr-IsTable card t s in
    let gpt = with_status-Ends _ (mmc_boot_read_gpt-Ends card capacity garbage t' m g s') in
    elim (Bool-cases (not (e == 0))) [
      | inl bad ↦ (returned t' 1, rw (partition_read_table, eq) (rw bad refl), s')
      | inr good ↦ elim (Bool-cases t'.gpt_partitions_exist) [
        | inr plain ↦ (returned t' 0, rw (partition_read_table, eq) (rw good (rw plain refl)), s')
        | inl guid ↦
            let (r, q, safe) = gpt in
            (r, rw (partition_read_table, eq) (rw good (rw q (rw guid refl))), safe)
      ]
    ]
