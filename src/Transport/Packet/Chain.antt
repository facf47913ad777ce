-- ===== src/Transport/Packet/Chain.antt =====
-- The extension chain: what `parse_extensions` accepts is exactly a chain in wire form.
use xfer_rust.Common.{
  ℕ, zero, suc, ◌+◌, ◌≤◌, ◌<◌, ◌≡◌, ◌≢◌, refl, ap, ◌∙◌, inl, inr, List, [], ◌∷◌, ◌++◌, append-nil,
  append_assoc, arith, ◌==◌, Bool-cases, All, All-drop, length, take, drop, length-append,
  length-take, length-drop, take-append, drop-append, take-append-drop,
}
use xfer_rust.Common.Bytes.{Bytes, IsByte, IsBytes}
use xfer_rust.Common.Run.{ok, stuck}
use xfer_rust.Transport.Packet.{Extension, ext_none, parse_extensions}

abbrev pub first_type : List Extension → ℕ
first_type [] = ext_none
first_type ((ext_type, payload) ∷ es) = ext_type

-- The wire form: each extension carries the type of the next, its length and its payload.
abbrev pub chain_bytes : List Extension → Bytes
chain_bytes [] = []
chain_bytes ((ext_type, payload) ∷ es) =
    first_type es ∷ length payload ∷ (payload ++ chain_bytes es)

abbrev pub IsExtension : Extension → Type 0
IsExtension (ext_type, payload) = (ext_type ≢ ext_none) × (ext_type < 256) × (length payload < 256)

abbrev pub IsChain : List Extension → Type 0
IsChain es = All IsExtension es

pub length-bytes : (xs ys : Bytes) → length (xs ++ ys) ≡ length xs + length ys
length-bytes = length-append

-- A chain of proper extensions is read back, wherever it stands and whatever follows.
pub parse_extensions-chain_bytes :
    (es : List Extension) (fuel : ℕ) (payload : Bytes) (off : ℕ) (acc : List Extension)
    → IsChain es
    → length (chain_bytes es) ≤ fuel
    → parse_extensions fuel (chain_bytes es ++ payload) off (first_type es) acc
      ≡ ok (acc ++ es, off + length (chain_bytes es))
unfolding parse_extensions
parse_extensions-chain_bytes [] zero payload off acc h k = rw append-nil (ground arith)
parse_extensions-chain_bytes [] (suc fuel) [] off acc h k = rw append-nil (ground arith)
parse_extensions-chain_bytes [] (suc fuel) (b ∷ []) off acc h k = rw append-nil (ground arith)
parse_extensions-chain_bytes [] (suc fuel) (b ∷ c ∷ bs) off acc h k = rw append-nil (ground arith)
parse_extensions-chain_bytes ((t, p) ∷ es) zero payload off acc h k = absurd (omega arith)
parse_extensions-chain_bytes ((t, p) ∷ es) (suc fuel) payload off acc ((nonzero, _, _), hs) k =
    let tail = chain_bytes es ++ payload in
    let rest =
      parse_extensions-chain_bytes es fuel payload (off + 2 + length p) (acc ++ (t, p) ∷ []) hs
        (omega (arith, length-bytes p (chain_bytes es))) in
    rw (append_assoc, drop-append p tail, take-append p tail)
      (ground (
        arith,
        length-bytes p tail,
        length-bytes p (chain_bytes es),
        rest,
        append_assoc acc ((t, p) ∷ []) es,
      ))

-- Whatever is accepted was such a chain; the offset is moved by its length.
pub parse_extensions_sound :
    (fuel : ℕ) (rest : Bytes) (off t : ℕ) (acc es' : List Extension) (off' : ℕ)
    → IsBytes rest
    → t < 256
    → parse_extensions fuel rest off t acc ≡ ok (es', off')
    → (es : List Extension) × (payload : Bytes) × (es' ≡ acc ++ es)
      × (rest ≡ chain_bytes es ++ payload)
      × (off' ≡ off + length (chain_bytes es))
      × (first_type es ≡ t)
      × IsChain es
unfolding parse_extensions
parse_extensions_sound zero rest off t acc es' off' hb ht e =
    ([], rest, rw append-nil (ground arith), refl, ground arith, ground arith, tt)
parse_extensions_sound (suc fuel) [] off t acc es' off' hb ht e =
    ([], [], rw append-nil (ground arith), refl, ground arith, ground arith, tt)
parse_extensions_sound (suc fuel) (b ∷ []) off t acc es' off' hb ht e =
    ([], b ∷ [], rw append-nil (ground arith), refl, ground arith, ground arith, tt)
parse_extensions_sound (suc fuel) (n ∷ l ∷ rest) off t acc es' off' (hn, (hl, hb)) ht e =
    elim (Bool-cases (t == 0)) [
      | inl stop ↦
          ([], n ∷ l ∷ rest, rw append-nil (ground arith), refl, ground arith, ground arith, tt)
      | inr go ↦
          let long : l ≤ length rest = ground arith in
          let here : length (take l rest) ≡ l = omega (arith, length-take l rest) in
          let (es, payload, whole, wire, moved, first, proper) =
            parse_extensions_sound fuel (drop l rest) (off + 2 + l) n (acc ++ (t, take l rest) ∷ [])
              es' off' (All-drop IsByte l rest hb) hn (ground arith) in
          (
            (t, take l rest) ∷ es,
            payload,
            whole ∙ append_assoc acc ((t, take l rest) ∷ []) es,
            cc (
              first,
              here,
              take-append-drop l rest,
              ap (λ x. take l rest ++ x) wire,
              append_assoc (take l rest) (chain_bytes es) payload,
            ),
            omega (arith, here, moved, length-bytes (take l rest) (chain_bytes es)),
            refl,
            ((ground arith, ht, omega (arith, here)), proper),
          )
    ]

-- With a unit of fuel for each byte the walk ends.
pub parse_extensions-ne-stuck :
    (fuel : ℕ) (rest : Bytes) (off t : ℕ) (acc : List Extension)
    → length rest < fuel
    → parse_extensions fuel rest off t acc ≢ stuck
unfolding parse_extensions
parse_extensions-ne-stuck zero rest off t acc h e = absurd (omega arith)
parse_extensions-ne-stuck (suc fuel) [] off t acc h e = ground arith
parse_extensions-ne-stuck (suc fuel) (b ∷ []) off t acc h e = ground arith
parse_extensions-ne-stuck (suc fuel) (n ∷ l ∷ rest) off t acc h e = ground (
  arith,
  length-drop l rest,
  parse_extensions-ne-stuck fuel (drop l rest) (off + 2 + l) n (acc ++ (t, take l rest) ∷ []),
)
