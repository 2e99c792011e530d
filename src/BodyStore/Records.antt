-- ===== src/BodyStore/Records.antt =====
-- src/utils/body-record.ts, readRecords and appendToOpenFile over the bytes of a file. A file is
-- smaller than 2 ^ 53 bytes, where `Number` and `BigInt` agree.
pub mod Chain
use model_proxy_v.Base.{
  ℕ, zero, suc, ◌-◌, not, List, [], ◌∷◌, ◌++◌, Option, none, some, is_some, reverse, if◌then◌else◌,
  ◌==◌, ltb, leb, length,
}
use model_proxy_v.Base.Bytes.{slice}
use model_proxy_v.BodyStore.Crc.{crc32_buf}
use model_proxy_v.BodyStore.Tail.{RecTail, rec_tail_size, serialize_tail, deserialize_tail}

abbrev pub tail_at : List ℕ → ℕ → Option RecTail
tail_at file off = deserialize_tail (slice off rec_tail_size file)

abbrev pub payload_at : List ℕ → ℕ → ℕ → List ℕ
payload_at file off len = slice (off - len) len file

abbrev pub add_payload : List ℕ → Option (List (List ℕ)) → Option (List (List ℕ))
add_payload p none = none
add_payload p (some ps) = some (p ∷ ps)

-- A round of readRecords with a tail that is valid; `older` is what the rounds behind it find.
unfoldable pub take_record : List ℕ → ℕ → RecTail → Option (List (List ℕ)) → Option (List (List ℕ))
take_record file tail_off tail older =
    let payload = payload_at file tail_off tail.payload_len in
    if ltb tail_off tail.payload_len
    then some []
    else if not (crc32_buf payload == tail.payload_crc32)
    then some []
    else if leb tail_off tail.prev_tail_off
    then some (payload ∷ [])
    else add_payload payload older

-- `if (!tail) break;`
unfoldable pub on_tail :
    Option RecTail → (RecTail → Option (List (List ℕ))) → Option (List (List ℕ))
on_tail none go = some []
on_tail (some tail) go = go tail

-- The loop of readRecords, newest record first; `none`: out of fuel.
unfoldable pub walk_records : ℕ → List ℕ → ℕ → Option (List (List ℕ))
walk_records zero file tail_off = none
walk_records (suc fuel) file zero = some []
walk_records (suc fuel) file (suc off) =
    on_tail (tail_at file (suc off))
      (λ tail. take_record file (suc off) tail (walk_records fuel file tail.prev_tail_off))

abbrev pub in_order : Option (List (List ℕ)) → Option (List (List ℕ))
in_order none = none
in_order (some ps) = some (reverse ps)

-- The offset of a tail falls in each round, so one round more than the size is enough.
unfoldable pub read_records : List ℕ → Option (List (List ℕ))
read_records file =
    if ltb (length file) rec_tail_size
    then some []
    else in_order (walk_records (suc (length file)) file (length file - rec_tail_size))

-- The offset of the tail at the end, or 0 where there is none that is valid.
unfoldable pub last_tail_off : List ℕ → ℕ
last_tail_off file =
    if leb rec_tail_size (length file)
    then if is_some (tail_at file (length file - rec_tail_size))
      then length file - rec_tail_size
      else 0
    else 0

abbrev pub tail_for : List ℕ → List ℕ → RecTail
tail_for file payload = record {
  payload_len = length payload;
  prev_tail_off = last_tail_off file;
  payload_crc32 = crc32_buf payload;
}

-- The file behind appendToOpenFile.
unfoldable pub append_record : List ℕ → List ℕ → List ℕ
unfolding last_tail_off
append_record file payload = file ++ (payload ++ serialize_tail (tail_for file payload))
