-- ===== src/Storage/Layout/Credited.antt =====
-- `files_done_bytes` of crates/xfer-storage/src/piece.rs against a count of the bytes, one at a time.
use mathlib.Core.List.{map}
use native.Mathlib.Nat.{mul-le-mul_right, mul-add-div_right, div-add-mod', mod-lt, div-eq_of_lt}
use xfer_rust.Storage.Layout.Done.{
  end_of, credit, skip_files, pieces_loop, files_done_bytes, credit_all, Ascend, skip_files-All,
  All-later, credit_from,
}
use xfer_rust.Common.{
  ℕ, zero, suc, ◌+◌, ◌-◌, ◌*◌, ◌/◌, ◌%◌, ◌^◌, ◌≤◌, ◌<◌, min, ◌≡◌, refl, sym, ap, ◌∙◌, arith, Bool,
  true, false, ◌&&◌, ◌||◌, inl, inr, List, ◌==◌, if◌then◌else◌, length, replicate, take, drop,
  Bool-cases, All,
}
use xfer_rust.Storage.Layout.Counts.{
  count, in_file, count-append, count-same, count-none, map-All, length-map, zeros-map, empty-map,
  credit_all-map, credit-count,
}

module _ (piece_length total : ℕ) (files : List (ℕ × ℕ)) (have : ℕ → Bool) where
  -- A byte of the torrent is a file's and its piece is there.
  abbrev pub is_done : ℕ × ℕ → ℕ → Bool
  is_done f x = in_file f x && have ((x / piece_length) % 2 ^ 32)

  -- How many of the first `n` bytes are.
  abbrev pub counted : ℕ → ℕ × ℕ → ℕ
  counted n f = count (is_done f) 0 n

  module _ (pos : 0 < piece_length) (fits : total + piece_length < 2 ^ 64) (up : Ascend files)
      (ends : All (λ f. f.0 + f.1 < 2 ^ 64) files) where
    piece_of : (i k : ℕ) → k < piece_length → (i * piece_length + k) / piece_length ≡ i
    piece_of i k lt = let e = mul-add-div_right pos i k in let z = div-eq_of_lt lt in omega arith

    count-piece :
        (f : ℕ × ℕ) (i n : ℕ)
        → n ≤ piece_length
        → count (is_done f) (i * piece_length) n
          ≡ (if have (i % 2 ^ 32) then count (in_file f) (i * piece_length) n else 0)
    count-piece f i n le =
        let a = i * piece_length in
        let number =
          λ (k : ℕ) (lt : k < n). ap (λ y. have (y % 2 ^ 32)) (piece_of i k (omega arith)) in
        elim (Bool-cases (have (i % 2 ^ 32))) [
          | inl e ↦
              rw e (
                count-same (is_done f) (in_file f) a n (λ k lt. rw (number k lt, e) (ground arith)))
          | inr e ↦ rw e (
              count-same (is_done f) (λ y. false) a n (λ k lt. rw (number k lt, e) (ground arith))
              ∙ count-none a n)
        ]

    -- After a piece of the torrent, each file has what is counted up to the piece's end.
    credit_all-counted :
        (i : ℕ)
        → i * piece_length ≤ total
        → have (i % 2 ^ 32) ≡ true
        → let b = min (i * piece_length + piece_length) total in
          credit_all (i * piece_length) b files (map (counted (i * piece_length)) files)
          ≡ map (counted b) files
    credit_all-counted i inside there =
        let a = i * piece_length in
        let b = min (a + piece_length) total in
        credit_all-map a b (counted a) files
        ∙ map-All (λ f. credit a b f (counted a f)) (counted b) (λ f. f.0 + f.1 < 2 ^ 64) files
            (λ f small.
              credit-count (is_done f) f a b small (omega arith) (omega arith)
                (count-piece f i (b - a) (omega arith) ∙ rw there refl))
            ends

    -- A piece that is not there adds nothing.
    counted-gap :
        (i : ℕ)
        → i * piece_length ≤ total
        → have (i % 2 ^ 32) ≡ false
        → map (counted (i * piece_length)) files
          ≡ map (counted (min (i * piece_length + piece_length) total)) files
    counted-gap i inside gone =
        let a = i * piece_length in
        let b = min (a + piece_length) total in
        let n = b - a in
        let e : a + n ≡ b = omega arith in
        map-All (counted a) (counted b) (λ f. f.0 + f.1 < 2 ^ 64) files
          (λ f small.
            let none_ : count (is_done f) a n ≡ 0 =
              count-piece f i n (omega arith) ∙ rw gone refl in
            let z : 0 + a ≡ a = omega arith in
            let whole = count-append (is_done f) 0 a n in
            let moved = ap (λ y. count (is_done f) y n) z in
            let ended = ap (count (is_done f) 0) e in omega arith)
          ends

    pieces_loop-counted :
        (number : ℕ)
        → total ≤ number * piece_length
        → number * piece_length < total + piece_length
        → (i n fi : ℕ) (out : List ℕ) → i + n ≡ number
        → out ≡ map (counted (min (i * piece_length) total)) files
        → All (λ f. end_of f ≤ i * piece_length) (take fi files)
        → pieces_loop piece_length total files have i n fi out ≡ map (counted total) files
    unfolding pieces_loop
    pieces_loop-counted number enough few i zero fi out e so_far behind =
        let last : i * piece_length ≡ number * piece_length =
          ap (λ k. k * piece_length) (omega arith) in
        let all_ : min (i * piece_length) total ≡ total = omega arith in
        so_far ∙ ap (λ n. map (counted n) files) all_
    pieces_loop-counted number enough few i (suc n) fi out e so_far behind =
        let a = i * piece_length in
        let b = min (a + piece_length) total in
        let next_start : suc i * piece_length ≡ a + piece_length = omega arith in
        let within : suc i * piece_length ≤ number * piece_length =
          mul-le-mul_right piece_length (omega arith) in
        let starts : a % 2 ^ 64 ≡ a = omega arith in
        let stops : (a + piece_length) % 2 ^ 64 ≡ a + piece_length = omega arith in
        let now : out ≡ map (counted a) files =
          so_far ∙ ap (λ n. map (counted n) files) (let m : min a total ≡ a = omega arith in m) in
        let then_ : map (counted b) files ≡ map (counted (min (suc i * piece_length) total)) files =
          ap (λ n. map (counted (min n total)) files) (sym next_start) in
        let next = fi + skip_files a (drop fi files) in
        let passed = skip_files-All a next fi files refl behind in
        let same =
          credit_from a b next files out up (ap length now ∙ length-map (counted a) files) passed in
        elim (Bool-cases (have (i % 2 ^ 32))) [
          | inl there ↦
              rw (pieces_loop, there, starts, stops, same)
                (pieces_loop-counted number enough few (suc i) n next (credit_all a b files out)
                  (omega arith)
                  (ap (credit_all a b files) now ∙ credit_all-counted i (omega arith) there ∙ then_)
                  (All-later a (suc i * piece_length) (take next files) (omega arith) passed))
          | inr gone ↦
              rw (pieces_loop, gone)
                (pieces_loop-counted number enough few (suc i) n fi out (omega arith)
                  (now ∙ counted-gap i (omega arith) gone ∙ then_)
                  (All-later a (suc i * piece_length) (take fi files) (omega arith) behind))
        ]

    -- For a piece length that is not 0, files in the order of where they begin, and positions that are all
    -- u64, the one pass over pieces and files gives for each file the number of the torrent's bytes that lie
    -- in it and whose piece is there.
    pub files_done_bytes-count :
        files_done_bytes piece_length total files have ≡ map (counted total) files
    unfolding files_done_bytes
    files_done_bytes-count =
        let rest : ℕ = if total % piece_length == 0 then 0 else 1 in
        let number = total / piece_length + rest in
        let parts = div-add-mod' total piece_length in
        let small = mod-lt total pos in
        let enough : total ≤ number * piece_length = ground arith in
        let few : number * piece_length < total + piece_length = ground arith in
        elim (Bool-cases (piece_length == 0 || (total == 0 || length files == 0))) [
          | inl e ↦
              rw (files_done_bytes, e)
                (elim (Bool-cases (total == 0)) [
                  | inl none_ ↦
                      let z : 0 ≡ total = ground arith in
                      zeros-map files ∙ ap (λ n. map (counted n) files) z
                  | inr some_ ↦ empty-map (counted total) files (ground arith)
                ])
          | inr e ↦
              rw (files_done_bytes, e)
                (pieces_loop-counted number enough few 0 number 0 (replicate (length files) 0)
                  (omega arith)
                  (zeros-map files
                    ∙ ap (λ n. map (counted n) files)
                        (let z : 0 ≡ min (0 * piece_length) total = omega arith in z))
                  tt)
        ]
