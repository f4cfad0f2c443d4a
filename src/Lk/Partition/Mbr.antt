-- ===== src/Lk/Partition/Mbr.antt =====
-- A master boot record, and the chain of extended ones: the reading ends, within the array.
use android4_4_4_r.Prelude.{
  ℕ, zero, suc, ◌+◌, ◌%◌, ◌^◌, ◌≤◌, ◌<◌, ◌≡◌, subst, refl, ◌∙◌, arith, List, length, length-set,
  get_or, Bool, Bool-cases, ◌⊎◌, inl, inr, false, not, ◌||◌, Option, some, ◌==◌,
}
use android4_4_4_r.Lk.Bytes.{get_lword}
use android4_4_4_r.Lk.Partition.{
  PartitionEntry, num_partitions, Table, Answer, failed, block, Card, last_entry, add_entry,
  mbr_fill_name, read_entry, Scan, finished, scanned, scan_entries, address, ebr_loop,
  partition_verify_mbr_signature, mmc_boot_read_mbr,
}

pub Answer-cases : (a : Answer) → ((e : ℕ) × (a ≡ failed e)) ⊎ ((b : List ℕ) × (a ≡ block b))
Answer-cases (failed e) = inl (e, refl)
Answer-cases (block b) = inr (b, refl)

-- The array has its 32 entries, of which the first ones are in use, and the lists of names are not
-- run over.
pub record IsTable (t : Table) : Type 0 where
  pub slots : length t.partition_entries ≡ 32
  pub counted : t.partition_count ≤ 32
  pub ext3 : t.ext3_count ≤ 5
  pub vfat : t.vfat_count ≤ 2

-- An entry has been added.
record IsAdded (t t' : Table) : Type 0 where
  table : IsTable t'
  next : t'.partition_count ≡ t.partition_count + 1

mbr_fill_name-IsTable :
    (e : PartitionEntry) (t : Table)
    → IsTable t
    → IsTable (mbr_fill_name e t).1 × ((mbr_fill_name e t).1.partition_count ≡ t.partition_count)
unfolding mbr_fill_name
mbr_fill_name-IsTable e t h = (
  record {
    slots = ground (arith, h.slots);
    counted = ground (arith, h.counted);
    ext3 = ground (arith, h.ext3);
    vfat = ground (arith, h.vfat);
  },
  ground arith,
)

add_entry-IsAdded :
    (e : PartitionEntry) (t : Table)
    → IsTable t
    → t.partition_count < 32
    → IsAdded t (add_entry e t)
add_entry-IsAdded e t h l = record {
  table = record {
    slots = omega (arith, length-set t.partition_entries t.partition_count e, h.slots);
    counted = omega (arith, l);
    ext3 = h.ext3;
    vfat = h.vfat;
  };
  next = refl;
}

read_entry-IsAdded :
    (i base : ℕ) (buffer : List ℕ) (t : Table)
    → IsTable t
    → t.partition_count < 32
    → IsAdded t (read_entry i base buffer t)
unfolding read_entry
read_entry-IsAdded i base buffer t h l =
    let e : PartitionEntry = record (last_entry t) {
      dtype = get_or buffer (i + 4) 0;
      attribute_flag = get_or buffer i 0;
      first_lba = (get_lword (i + 8) buffer + base) % 2 ^ 32;
      size = get_lword (i + 12) buffer;
    } in
    let (h', c) = mbr_fill_name-IsTable e t h in
    let a =
      add_entry-IsAdded (mbr_fill_name e t).0 (mbr_fill_name e t).1 h' (omega (arith, c, l)) in
    record { table = a.table; next = a.next ∙ omega (arith, c) }

-- What the scan of the four entries leaves.
IsScanned : Scan → Type 0
IsScanned (finished t) = IsTable t
IsScanned (scanned dtype first t) = IsTable t × (t.partition_count < 32)

scan_entries-IsScanned :
    (n i : ℕ) (buffer : List ℕ) (dtype first : ℕ) (t : Table)
    → t.partition_count + n < 32
    → IsTable t
    → IsScanned (scan_entries n i buffer dtype first t)
unfolding scan_entries IsScanned
scan_entries-IsScanned zero i buffer dtype first t l h = (h, omega (arith, l))
scan_entries-IsScanned (suc n) i buffer dtype first t l h =
    let type = get_or buffer (i + 4) 0 in
    let a = read_entry-IsAdded i 0 buffer t h (omega (arith, l)) in
    let t' = read_entry i 0 buffer t in
    let rest =
      scan_entries-IsScanned n (i + 16) buffer type (get_lword (i + 8) buffer) t'
        (omega (arith, a.next, l)) a.table in
    elim (Bool-cases (type == 0xEE)) [
      | inl e ↦
          rw (scan_entries, e)
            (record { slots = h.slots; counted = h.counted; ext3 = h.ext3; vfat = h.vfat })
      | inr e ↦ elim (Bool-cases (t'.partition_count == num_partitions)) [
        | inl full ↦ rw (scan_entries, e) (rw full a.table)
        | inr free ↦ rw (scan_entries, e) (rw free rest)
      ]
    ]

-- The reading returns, with a table.
abbrev Reads : Option (Table × ℕ) → Type 0
Reads o = (t : Table) × (r : ℕ) × (o ≡ some (t, r)) × IsTable t

below_full : (c : ℕ) (b : Bool) → (c == 32 || b) ≡ false → c ≤ 32 → c < 32
below_full c b e l = ground arith

ebr_loop-Reads :
    (n : ℕ) (card : Card) (first current : ℕ) (buffer : List ℕ) (t : Table)
    → 32 ≤ t.partition_count + n
    → t.partition_count < 32
    → IsTable t
    → Reads (ebr_loop n card first current buffer t)
unfolding ebr_loop
ebr_loop-Reads zero card first current buffer t m l h = absurd (omega (arith, m, l))
ebr_loop-Reads (suc n) card first current buffer t m l h =
    let t' = read_entry 0x1BE current buffer t in
    let a = read_entry-IsAdded 0x1BE current buffer t h l in
    let dfirstsec = get_lword (0x1CE + 8) buffer in
    let next = (first + dfirstsec) % 2 ^ 32 in
    elim (Bool-cases (not (partition_verify_mbr_signature 512 buffer == 0))) [
      | inl bad ↦ (t, 0, rw (ebr_loop, bad) refl, h)
      | inr good ↦ elim (Bool-cases (t'.partition_count == num_partitions || dfirstsec == 0)) [
        | inl last ↦ (t', 0, rw (ebr_loop, good) (rw last refl), a.table)
        | inr on ↦ elim (Answer-cases (card (address next))) [
          | inl (e, q) ↦ (t', e, rw (ebr_loop, good) (rw on (rw q refl)), a.table)
          | inr (b, q) ↦
              let l' =
                below_full t'.partition_count (dfirstsec == 0) on (omega (arith, a.next, l)) in
              let (u, r, eq, h') =
                ebr_loop-Reads n card first next b t' (omega (arith, a.next, m)) l' a.table in
              (u, r, rw (ebr_loop, good) (rw on (rw q eq)), h')
        ]
      ]
    ]

Scan-cases :
    (s : Scan)
    → ((t : Table) × (s ≡ finished t))
      ⊎ ((dtype : ℕ) × (first : ℕ) × (t : Table) × (s ≡ scanned dtype first t))
Scan-cases (finished t) = inl (t, refl)
Scan-cases (scanned dtype first t) = inr (dtype, first, t, refl)

-- Whatever the card holds, and however its extended records are chained, `mmc_boot_read_mbr` returns
-- within 32 rounds; the array keeps its 32 entries, of which at most so many are in use.
pub mmc_boot_read_mbr-IsTable :
    (card : Card) (t : Table)
    → IsTable t
    → (t' : Table) × (r : ℕ) × (mmc_boot_read_mbr card t ≡ some (t', r)) × IsTable t'
unfolding mmc_boot_read_mbr IsScanned
mmc_boot_read_mbr-IsTable card t0 h0 = elim (Answer-cases (card 0)) [
  | inl (e, q) ↦ (t0, e, rw (mmc_boot_read_mbr, q) refl, h0)
  | inr (buffer, q) ↦
      let t : Table = record t0 { partition_count = 0 } in
      let h : IsTable t = record {
        slots = h0.slots;
        counted = omega arith;
        ext3 = h0.ext3;
        vfat = h0.vfat;
      } in
      let s = scan_entries 4 0x1BE buffer 0 0 t in
      let scan : IsScanned s = scan_entries-IsScanned 4 0x1BE buffer 0 0 t (omega arith) h in
      elim (Bool-cases (partition_verify_mbr_signature 512 buffer == 0)) [
        | inr bad ↦ (t0, 1, rw (mmc_boot_read_mbr, q) (rw bad refl), h0)
        | inl good ↦ elim (Scan-cases s) [
          | inl (t', e) ↦
              (t', 0, rw (mmc_boot_read_mbr, q) (rw good (rw e refl)), subst IsScanned e scan)
          | inr (dtype, first, t', e) ↦
              let (h', l) = subst IsScanned e scan in
              elim (Bool-cases (dtype == 0x05)) [
                | inr plain ↦
                    (t', 0, rw (mmc_boot_read_mbr, q) (rw good (rw e (rw plain refl))), h')
                | inl ebr ↦ elim (Answer-cases (card (address first))) [
                  | inl (code, f) ↦ (
                    t',
                    code,
                    rw (mmc_boot_read_mbr, q) (rw good (rw e (rw ebr (rw f refl)))),
                    h',
                  )
                  | inr (b, f) ↦
                      let (u, r, eq, hu) =
                        ebr_loop-Reads 32 card first first b t' (omega arith) l h' in
                      (u, r, rw (mmc_boot_read_mbr, q) (rw good (rw e (rw ebr (rw f eq)))), hu)
                ]
              ]
        ]
      ]
]
