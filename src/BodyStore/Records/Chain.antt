-- ===== src/BodyStore/Records/Chain.antt =====
-- A read of the records of any file ends, and finds behind an append what it found before and the new
-- record.
use mathlib.Core.List.{reverse-cons}
use model_proxy_v.Base.{
  false, ◌⊎◌, ℕ, zero, suc, ◌+◌, ◌-◌, ◌^◌, ◌≤◌, ◌<◌, List, [], ◌∷◌, ◌++◌, Option, none, some,
  reverse, length, length-append, append_assoc, Bool-cases, Option-cases, ltb, leb, ◌==◌, ==_iff,
  lt→ltb, ◌≡◌, refl, sym, ap, ◌∙◌, inl, inr, arith,
}
use model_proxy_v.Base.Bytes.{slice-append_left, slice-append_right, take-append}
use model_proxy_v.BodyStore.Crc.{crc32_buf, crc32_buf-lt}
use model_proxy_v.BodyStore.Tail.{
  RecTail, Fits, serialize_tail, deserialize_tail, length-serialize_tail,
  deserialize_tail-serialize_tail,
}
use model_proxy_v.BodyStore.Records.{
  tail_at, payload_at, add_payload, take_record, on_tail, walk_records, in_order, read_records,
  last_tail_off, tail_for, append_record,
}

-- The record is added where the payload is valid, whatever stands further on.
take_record_total :
    (file : List ℕ) (off : ℕ) (tail : RecTail) (older : Option (List (List ℕ)))
    → (tail.prev_tail_off < off → (ps : List (List ℕ)) × (older ≡ some ps))
    → (ps : List (List ℕ)) × (take_record file off tail older ≡ some ps)
unfolding take_record
take_record_total file off tail older more =
    let payload : List ℕ = payload_at file off tail.payload_len in
    elim (Bool-cases (ltb off tail.payload_len)) [
      | inl long ↦ ([], rw long)
      | inr fits ↦ elim (Bool-cases (crc32_buf payload == tail.payload_crc32)) [
        | inr bad ↦ ([], rw (fits, bad))
        | inl good ↦ elim (Bool-cases (leb off tail.prev_tail_off)) [
          | inl stop ↦ (payload ∷ [], rw (fits, good, stop))
          | inr go ↦ let (ps, r) = more (ground arith) in (payload ∷ ps, rw (fits, good, go, r))
        ]
      ]
    ]

-- With fuel above the offset the walk ends.
walk_records_total :
    (fuel : ℕ) (file : List ℕ) (off : ℕ)
    → off < fuel
    → (ps : List (List ℕ)) × (walk_records fuel file off ≡ some ps)
unfolding walk_records on_tail
walk_records_total zero file off h = absurd (omega arith)
walk_records_total (suc fuel) file zero h = ([], refl)
walk_records_total (suc fuel) file (suc off) h = elim (Option-cases (tail_at file (suc off))) [
  | inl e ↦ ([], rw e)
  | inr (tail, e) ↦
      let (ps, r) =
        take_record_total file (suc off) tail (walk_records fuel file tail.prev_tail_off)
          (λ p. walk_records_total fuel file tail.prev_tail_off (omega arith)) in
      (ps, rw e r)
]

-- A record that stands in the first part of a file is read as from that part alone.
take_record-append :
    (file more : List ℕ) (off : ℕ) (tail : RecTail) (a b : Option (List (List ℕ)))
    → off ≤ length file
    → (tail.prev_tail_off < off → a ≡ b)
    → take_record (file ++ more) off tail a ≡ take_record file off tail b
unfolding take_record
take_record-append file more off tail a b h same_older =
    elim (Bool-cases (ltb off tail.payload_len)) [
      | inl long ↦ rw long
      | inr fits ↦
          let there : payload_at (file ++ more) off tail.payload_len
              ≡ payload_at file off tail.payload_len =
            slice-append_left (off - tail.payload_len) tail.payload_len file more (ground arith) in
          elim (Bool-cases (leb off tail.prev_tail_off)) [
            | inl stop ↦ rw (there, stop)
            | inr go ↦ rw (there, same_older (ground arith))
          ]
    ]

-- So is the whole walk from a tail in the first part, with any fuel that is enough.
walk_records-append :
    (f g : ℕ) (file more : List ℕ) (off : ℕ)
    → off < f
    → off < g
    → off + 40 ≤ length file
    → walk_records f (file ++ more) off ≡ walk_records g file off
unfolding walk_records on_tail
walk_records-append zero g file more off p q h = absurd (omega arith)
walk_records-append (suc f) zero file more off p q h = absurd (omega arith)
walk_records-append (suc f) (suc g) file more zero p q h = refl
walk_records-append (suc f) (suc g) file more (suc off) p q h =
    let there : tail_at (file ++ more) (suc off) ≡ tail_at file (suc off) =
      ap deserialize_tail (slice-append_left (suc off) 40 file more h) in
    elim (Option-cases (tail_at file (suc off))) [
      | inl e ↦ rw (there, e)
      | inr (tail, e) ↦
          rw (there, e)
            (take_record-append file more (suc off) tail
              (walk_records f (file ++ more) tail.prev_tail_off)
              (walk_records g file tail.prev_tail_off) (omega arith)
              (λ r.
                walk_records-append f g file more tail.prev_tail_off (omega arith) (omega arith)
                  (omega arith)))
    ]

-- A round behind the start of the file.
walk_records-pos :
    (fuel : ℕ) (file : List ℕ) (off : ℕ)
    → 0 < off
    → walk_records (suc fuel) file off
      ≡ on_tail
          (tail_at file off)
          (λ tail. take_record file off tail (walk_records fuel file tail.prev_tail_off))
unfolding walk_records
walk_records-pos fuel file zero h = absurd (omega arith)
walk_records-pos fuel file (suc off) h = refl

walk_records-zero : (fuel : ℕ) (file : List ℕ) → 0 < fuel → walk_records fuel file 0 ≡ some []
unfolding walk_records
walk_records-zero zero file h = absurd (omega arith)
walk_records-zero (suc fuel) file h = refl

walk_records-none :
    (fuel : ℕ) (file : List ℕ) (off : ℕ)
    → 0 < fuel
    → tail_at file off ≡ none
    → walk_records fuel file off ≡ some []
unfolding walk_records on_tail
walk_records-none zero file off h e = absurd (omega arith)
walk_records-none (suc fuel) file zero h e = refl
walk_records-none (suc fuel) file (suc off) h e = rw e

-- The walk may as well begin at the offset that an append links to.
read_records-last :
    (file : List ℕ)
    → read_records file ≡ in_order (walk_records (suc (length file)) file (last_tail_off file))
unfolding read_records last_tail_off
read_records-last file = elim (Bool-cases (leb 40 (length file))) [
  | inr short ↦ rw (
    short,
    walk_records-zero (suc (length file)) file (omega arith),
    lt→ltb (length file) 40 (ground arith),
  )
  | inl long ↦
      let enough : ltb (length file) 40 ≡ false = ground arith in
      elim (Option-cases (tail_at file (length file - 40))) [
        | inr (tail, e) ↦ rw (enough, long, e)
        | inl e ↦ rw (
          enough,
          long,
          e,
          walk_records-zero (suc (length file)) file (omega arith),
          walk_records-none (suc (length file)) file (length file - 40) (omega arith) e,
        )
      ]
]

last_tail_off-cases :
    (file : List ℕ) → (last_tail_off file ≡ 0) ⊎ (last_tail_off file + 40 ≤ length file)
unfolding last_tail_off
last_tail_off-cases file = ground arith

module _ (file payload : List ℕ) where
  written : List ℕ
  written = serialize_tail (tail_for file payload)

  -- What the offset of the last tail leads to is as it was.
  older_records :
      (fuel : ℕ)
      → length file < fuel
      → walk_records fuel (file ++ (payload ++ written)) (last_tail_off file)
        ≡ walk_records (suc (length file)) file (last_tail_off file)
  older_records fuel h = elim (last_tail_off-cases file) [
    | inl e ↦ rw (
      e,
      walk_records-zero fuel (file ++ (payload ++ written)) (omega arith),
      walk_records-zero (suc (length file)) file (omega arith),
    )
    | inr far ↦
        walk_records-append fuel (suc (length file)) file (payload ++ written) (last_tail_off file)
          (omega arith) (omega arith) far
  ]

  length-written : length (file ++ (payload ++ written)) ≡ length file + length payload + 40
  unfolding written
  length-written = omega (
    arith,
    length-append file (payload ++ written),
    length-append payload written,
    length-serialize_tail (tail_for file payload),
  )

  payload_at-written :
      payload_at (file ++ (payload ++ written)) (length file + length payload) (length payload)
      ≡ payload
  payload_at-written =
      slice-append_right (length file + length payload - length payload) (length payload) file
        (payload ++ written) (omega arith)
      ∙ take-append payload written

  module _ (small : length file + length payload < 2 ^ 64) where
    Fits-tail_for : Fits (tail_for file payload)
    Fits-tail_for =
        let c : crc32_buf payload < 0x100000000 = crc32_buf-lt payload in
        let l : (last_tail_off file ≡ 0) ⊎ (last_tail_off file + 40 ≤ length file) =
          last_tail_off-cases file in
        record { len_fits = omega arith; prev_fits = ground arith; crc_fits = omega arith }

    tail_at-written :
        tail_at (file ++ (payload ++ written)) (length file + length payload)
        ≡ some (tail_for file payload)
    unfolding written serialize_tail
    tail_at-written = rw (← append_assoc file payload written) (
        ap deserialize_tail (
          slice-append_right (length file + length payload) 40 (file ++ payload) written
            (sym (length-append file payload)))
        ∙ deserialize_tail-serialize_tail (tail_for file payload) Fits-tail_for)

  -- The walk from the end of the new file: the new record, then the records as they were.
  walk_records-written :
      length file + length payload < 2 ^ 64
      → 0 < length file + length payload
      → walk_records
          (suc (length file + length payload + 40))
          (file ++ (payload ++ written))
          (length file + length payload)
        ≡ add_payload payload (walk_records (suc (length file)) file (last_tail_off file))
  unfolding on_tail take_record
  walk_records-written small filled =
      let l : (last_tail_off file ≡ 0) ⊎ (last_tail_off file + 40 ≤ length file) =
        last_tail_off-cases file in
      let fits : ltb (length file + length payload) (length payload) ≡ false = ground arith in
      let go : leb (length file + length payload) (last_tail_off file) ≡ false = ground arith in
      walk_records-pos (length file + length payload + 40) (file ++ (payload ++ written))
        (length file + length payload) filled
      ∙ rw (tail_at-written small) (
          rw (
            fits,
            payload_at-written,
            (==_iff (crc32_buf payload) (crc32_buf payload)).1 refl,
            go,
            older_records (length file + length payload + 40) (omega arith),
          ))

  read_records-written :
      length file + length payload < 2 ^ 64
      → 0 < length file + length payload
      → read_records (file ++ (payload ++ written))
        ≡ in_order
            (add_payload payload (walk_records (suc (length file)) file (last_tail_off file)))
  unfolding read_records
  read_records-written small filled =
      let n : ℕ = length file + length payload in
      let enough : ltb (n + 40) 40 ≡ false = ground arith in
      let back : n + 40 - 40 ≡ n = omega arith in
      rw length-written (rw (enough, back) (ap in_order (walk_records-written small filled)))

in_order-add_payload :
    (payload : List ℕ) (newest : Option (List (List ℕ))) (ps : List (List ℕ))
    → in_order newest ≡ some ps
    → in_order (add_payload payload newest) ≡ some (ps ++ payload ∷ [])
in_order-add_payload payload none ps h = absurd (ground arith)
in_order-add_payload payload (some qs) ps h =
    ap some (reverse-cons payload qs ∙ ap (λ (r : List (List ℕ)). r ++ payload ∷ []) (ground arith))

read_records_total : (file : List ℕ) → (ps : List (List ℕ)) × (read_records file ≡ some ps)
unfolding read_records
read_records_total file = elim (Bool-cases (ltb (length file) 40)) [
  | inl short ↦ ([], rw short)
  | inr enough ↦
      let (ps, r) = walk_records_total (suc (length file)) file (length file - 40) (omega arith) in
      (reverse ps, rw (enough, r))
]

-- Where file and payload are not both empty and together under 2 ^ 64 bytes, the read behind
-- appendToOpenFile ends with the records that a read found before, whatever bytes the file holds,
-- followed by the payload.
pub read_records-append_record :
    (file payload : List ℕ)
    → length file + length payload < 2 ^ 64
    → 0 < length file + length payload
    → (ps : List (List ℕ)) × (read_records file ≡ some ps)
      × (read_records (append_record file payload) ≡ some (ps ++ payload ∷ []))
unfolding append_record written
read_records-append_record file payload small filled =
    let (ps, before) = read_records_total file in
    (
      ps,
      before,
      read_records-written file payload small filled
          ∙ in_order-add_payload payload
              (walk_records (suc (length file)) file (last_tail_off file)) ps
              (sym (read_records-last file) ∙ before),
    )
