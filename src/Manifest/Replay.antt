-- ===== src/Manifest/Replay.antt =====
-- The replay of a manifest, whole or torn in its last record.
use pebble_db.Prelude.{
  ℕ, zero, suc, ◌+◌, ◌-◌, ◌<◌, ◌≤◌, ◌≡◌, refl, sym, ap, ◌∙◌, ltb, ◌==◌, if◌then◌else◌, false,
  Bool-cases, inl, inr, some, List, [], ◌∷◌, ◌++◌, length, take, drop, All, arith, length-append,
  drop-append, take-append, take-append_ge, append_assoc, length-take, length-drop,
  take-append-drop,
}
use mathlib.Core.List.{foldl}
use pebble_db.Bytes.{Bytes}
use pebble_db.Result.{ok, err}
use pebble_db.Codec.{ReadError, put_uint32, uint32, read_full, eof, unexpected_eof}
use pebble_db.Codec.Laws.{read_full-append, read_full_short, read_full-nil}
use pebble_db.Manifest.{encode_record, decode_record, apply_edit, replayed, replay_loop, replay}
use pebble_db.Manifest.Records.{
  Fits, length-encode_record, decode_record-encode_record, Edit, payload_of, edited, IsEdit,
  payload_of-Fits, apply_edit-payload_of,
}

-- The record that the log writes for an edit.
abbrev pub entry_of : Edit → Bytes
entry_of e = encode_record (payload_of e)

unfoldable pub entries_of : List Edit → Bytes
entries_of [] = []
entries_of (e ∷ es) = entry_of e ++ entries_of es

parts :
    (p : Bytes)
    → Fits p
    → (take 4 (encode_record p) ++ drop 4 (encode_record p) ≡ encode_record p)
      × (length (take 4 (encode_record p)) ≡ 4)
      × (uint32 (take 4 (encode_record p)) ≡ length p + 4)
      × (length (drop 4 (encode_record p)) ≡ length p + 4)
parts p h = (
  take-append-drop 4 (encode_record p),
  length-take 4 (encode_record p) ∙ omega (arith, length-encode_record p),
  (unfold encode_record put_uint32 uint32 in omega (arith, h)),
  length-drop 4 (encode_record p) ∙ omega (arith, length-encode_record p),
)

read_full_less :
    (n : ℕ) (xs : Bytes)
    → length xs < n
    → read_full n xs ≡ err (if length xs == 0 then eof else unexpected_eof)
unfolding read_full
read_full_less n xs h = ground (arith, h)

replay_loop-go_on :
    (fuel : ℕ) (file : Bytes) (off : ℕ) (live : List ℕ) (count : ℕ) (hd b rest b' payload : Bytes)
    (live' : List ℕ)
    → read_full 4 (drop off file) ≡ ok (hd, b)
    → ltb (uint32 hd) 4 ≡ false
    → read_full (uint32 hd) b ≡ ok (rest, b')
    → decode_record (hd ++ rest) ≡ ok payload
    → apply_edit live payload ≡ ok live'
    → replay_loop (suc fuel) file off live count
      ≡ replay_loop fuel file (off + length (hd ++ rest)) live' (count + 1)
unfolding replay_loop
replay_loop-go_on fuel file off live count hd b rest b' payload live' h1 h2 h3 h4 h5 =
    ground (arith, h1, h2, h3, h4, h5)

replay_loop-no_header :
    (fuel : ℕ) (file : Bytes) (off : ℕ) (live : List ℕ) (count : ℕ) (e : ReadError)
    → read_full 4 (drop off file) ≡ err e
    → replay_loop (suc fuel) file off live count ≡ replayed file off live count
unfolding replay_loop
replay_loop-no_header fuel file off live count e h = ground (arith, h)

replay_loop-no_rest :
    (fuel : ℕ) (file : Bytes) (off : ℕ) (live : List ℕ) (count : ℕ) (hd b : Bytes) (e : ReadError)
    → read_full 4 (drop off file) ≡ ok (hd, b)
    → ltb (uint32 hd) 4 ≡ false
    → read_full (uint32 hd) b ≡ err e
    → replay_loop (suc fuel) file off live count ≡ replayed file off live count
unfolding replay_loop
replay_loop-no_rest fuel file off live count hd b e h1 h2 h3 = ground (arith, h1, h2, h3)

-- One whole record.
replay_loop-entry :
    (fuel : ℕ) (file : Bytes) (off : ℕ) (live : List ℕ) (count : ℕ) (e : Edit) (tail : Bytes)
    → IsEdit e
    → drop off file ≡ entry_of e ++ tail
    → replay_loop (suc fuel) file off live count
      ≡ replay_loop fuel file (off + length (entry_of e)) (edited live e) (count + 1)
replay_loop-entry fuel file off live count e tail h at =
    let p = payload_of e in
    let fits = payload_of-Fits e h in
    let (whole, four, len, more) = parts p fits in
    let hd = take 4 (encode_record p) in
    let rest = drop 4 (encode_record p) in
    let at' : drop off file ≡ hd ++ (rest ++ tail) =
      at ∙ ap (λ b. b ++ tail) (sym whole) ∙ append_assoc hd rest tail in
    replay_loop-go_on fuel file off live count hd (rest ++ tail) rest tail p (edited live e)
      (ap (read_full 4) at' ∙ read_full-append 4 hd (rest ++ tail) four) (rw len (ground arith))
      (ap (λ n. read_full n (rest ++ tail)) len ∙ read_full-append (length p + 4) rest tail more)
      (ap decode_record whole ∙ decode_record-encode_record p fits) (apply_edit-payload_of e live h)
    ∙ ap (λ b. replay_loop fuel file (off + length b) (edited live e) (count + 1)) whole

-- And a part of one, none or all but one byte among them.
replay_loop-torn :
    (fuel : ℕ) (file : Bytes) (off : ℕ) (live : List ℕ) (count : ℕ) (e : Edit) (k : ℕ)
    → IsEdit e
    → k < length (entry_of e)
    → drop off file ≡ take k (entry_of e)
    → replay_loop (suc fuel) file off live count ≡ replayed file off live count
replay_loop-torn fuel file off live count e k h short at =
    let p = payload_of e in
    let size = length-encode_record p in
    let (whole, four, len, more) = parts p (payload_of-Fits e h) in
    let hd = take 4 (encode_record p) in
    let rest = drop 4 (encode_record p) in
    let there : length (take k (entry_of e)) ≡ k =
      length-take k (entry_of e) ∙ omega (arith, short) in
    elim (Bool-cases (ltb k 4)) [
      | inl few ↦ elim (Bool-cases (ltb 0 k)) [
        | inl some_bytes ↦ replay_loop-no_header fuel file off live count unexpected_eof (
            ap (read_full 4) at
            ∙ read_full_short 4 (take k (entry_of e)) (ground (arith, there))
                (ground (arith, there)))
        | inr no_bytes ↦
            let z : k ≡ 0 = ground arith in
            replay_loop-no_header fuel file off live count eof (
              ap (read_full 4) (at ∙ ap (λ n. take n (entry_of e)) z)
              ∙ read_full-nil 4 (omega arith))
      ]
      | inr enough ↦
          let le : 4 ≤ k = ground arith in
          let cut = take (k - 4) rest in
          let at' : drop off file ≡ hd ++ cut =
            at
            ∙ ap (take k) (sym whole)
            ∙ take-append_ge k hd rest (omega (arith, four))
            ∙ ap (λ n. hd ++ take (k - n) rest) four in
          let left : length cut ≡ k - 4 =
            length-take (k - 4) rest ∙ omega (arith, more, size, short) in
          replay_loop-no_rest fuel file off live count hd cut
            (if length cut == 0 then eof else unexpected_eof)
            (ap (read_full 4) at' ∙ read_full-append 4 hd cut four) (rw len (ground arith))
            (ap (λ n. read_full n cut) len
              ∙ read_full_less (length p + 4) cut (omega (arith, left, more, short, size)))
    ]

replay_loop-entries :
    (es : List Edit) (last : Edit) (k fuel : ℕ) (pre file : Bytes) (live : List ℕ) (count : ℕ)
    → All IsEdit es
    → IsEdit last
    → k < length (entry_of last)
    → file ≡ pre ++ (entries_of es ++ take k (entry_of last))
    → length (entries_of es) < fuel
    → replay_loop fuel file (length pre) live count
      ≡ replayed file
          (length pre + length (entries_of es))
          (foldl edited live es)
          (count + length es)
unfolding entries_of
replay_loop-entries es last k zero pre file live count hs h short at enough = absurd (omega arith)
replay_loop-entries [] last k (suc fuel) pre file live count hs h short at enough =
    let here : drop (length pre) file ≡ take k (entry_of last) =
      ap (drop (length pre)) at ∙ drop-append (length pre) pre (take k (entry_of last)) refl in
    replay_loop-torn fuel file (length pre) live count last k h short here
    ∙ ap (λ n. replayed file n live count) (let z : length pre ≡ length pre + 0 = omega arith in z)
    ∙ ap (λ n. replayed file (length pre + 0) live n) (let z : count ≡ count + 0 = omega arith in z)
replay_loop-entries (e ∷ es) last k (suc fuel) pre file live count hs h short at enough =
    let tail = entries_of es ++ take k (entry_of last) in
    let size = length-append (entry_of e) (entries_of es) in
    let at' : file ≡ pre ++ (entry_of e ++ tail) =
      at
      ∙ ap (λ b. pre ++ b) (append_assoc (entry_of e) (entries_of es) (take k (entry_of last))) in
    let here : drop (length pre) file ≡ entry_of e ++ tail =
      ap (drop (length pre)) at' ∙ drop-append (length pre) pre (entry_of e ++ tail) refl in
    let longer : length (pre ++ entry_of e) ≡ length pre + length (entry_of e) =
      length-append pre (entry_of e) in
    let ends : length (pre ++ entry_of e) + length (entries_of es)
        ≡ length pre + length (entry_of e ++ entries_of es) =
      omega (arith, longer, size) in
    let counts : count + 1 + length es ≡ count + suc (length es) = omega arith in
    replay_loop-entry fuel file (length pre) live count e tail hs.0 here
    ∙ ap (λ n. replay_loop fuel file n (edited live e) (count + 1)) (sym longer)
    ∙ replay_loop-entries es last k fuel (pre ++ entry_of e) file (edited live e) (count + 1) hs.1 h
        short (at' ∙ sym (append_assoc pre (entry_of e) tail))
        (omega (arith, size, enough, length-encode_record (payload_of e)))
    ∙ ap (λ n. replayed file n (foldl edited (edited live e) es) (count + 1 + length es)) ends
    ∙ ap
        (λ n.
          replayed file (length pre + length (entry_of e ++ entries_of es))
            (foldl edited (edited live e) es) n)
        counts

-- The replay of the records of some edits, with a part of one more behind them, none of it or all but
-- one byte included, gives the live set that the whole edits make, counts them, and cuts the file
-- behind the last of them: a crash in the middle of an append to the manifest loses that append and
-- no other.
pub replay-entries :
    (es : List Edit) (last : Edit) (k : ℕ)
    → All IsEdit es
    → IsEdit last
    → k < length (entry_of last)
    → replay (entries_of es ++ take k (entry_of last))
      ≡ some (
          ok (record {
            file = entries_of es;
            live_set = foldl edited [] es;
            record_count = length es;
          }))
unfolding replay replayed
replay-entries es last k hs h short =
    let file = entries_of es ++ take k (entry_of last) in
    replay_loop-entries es last k (length file + 1) [] file [] 0 hs h short refl
      (omega (arith, length-append (entries_of es) (take k (entry_of last))))
    ∙ ap
        (λ b.
          some
            (ok (record { file = b; live_set = foldl edited [] es; record_count = 0 + length es })))
        (ap (λ n. take n file)
            (let z : 0 + length (entries_of es) ≡ length (entries_of es) = omega arith in z)
          ∙ take-append (length (entries_of es)) (entries_of es) (take k (entry_of last)) refl)
    ∙ ap
        (λ n.
          some
            (ok (record { file = entries_of es; live_set = foldl edited [] es; record_count = n })))
        (let z : 0 + length es ≡ length es = omega arith in z)
