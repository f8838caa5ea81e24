-- ===== src/Types/Assembly/Join.antt =====
-- The third loop of AssembleInferResponses, against the specification of a stream.
use lumen_sdk.Base.{
  ℕ, suc, ◌+◌, ◌%◌, ◌≡◌, refl, sym, ap, ◌∙◌, Bool, List, [], ◌∷◌, ◌++◌, map, Option, none, some, ok,
  arith, length, All, get_elem?, ◌==◌, append_assoc, append-nil, present,
}
use lumen_sdk.Base.Text.{Text, text_eq_iff}
use lumen_sdk.Types.Proto.{InferResponse, meta_get}
use lumen_sdk.Types.Assembly.{
  join, validate_chunk_contract, validate_meta_keys, check_final, uint64_mod,
  output_contract_meta_keys,
}
use lumen_sdk.Types.Assembly.Spec.{SameContract, IsStream, bytes}

module _ (first c : InferResponse) (seq : ℕ) where
  validate_meta_keys_sound :
      (keys : List Text)
      → validate_meta_keys keys first c seq ≡ ok tt
      → All (λ key. meta_get c.meta key ≡ meta_get first.meta key) keys
  unfolding validate_meta_keys
  validate_meta_keys_sound [] e = tt
  validate_meta_keys_sound (key ∷ keys) e = ground (
    arith,
    text_eq_iff (meta_get c.meta key) (meta_get first.meta key),
    validate_meta_keys_sound keys,
  )

  validate_meta_keys_complete :
      (keys : List Text)
      → All (λ key. meta_get c.meta key ≡ meta_get first.meta key) keys
      → validate_meta_keys keys first c seq ≡ ok tt
  unfolding validate_meta_keys
  validate_meta_keys_complete [] h = refl
  validate_meta_keys_complete (key ∷ keys) h = ground (
    arith,
    text_eq_iff (meta_get c.meta key) (meta_get first.meta key),
    validate_meta_keys_complete keys h.1,
  )

  contract_sound : validate_chunk_contract first c seq ≡ ok tt → SameContract first c
  unfolding validate_chunk_contract
  contract_sound e = ground (
    arith,
    text_eq_iff c.correlation_id first.correlation_id,
    text_eq_iff c.result_mime first.result_mime,
    text_eq_iff c.result_schema first.result_schema,
    validate_meta_keys_sound output_contract_meta_keys,
  )

  contract_complete : SameContract first c → validate_chunk_contract first c seq ≡ ok tt
  unfolding validate_chunk_contract
  contract_complete h = ground (
    arith,
    text_eq_iff c.correlation_id first.correlation_id,
    text_eq_iff c.result_mime first.result_mime,
    text_eq_iff c.result_schema first.result_schema,
    validate_meta_keys_complete output_contract_meta_keys h.metadata,
  )

check_final_sound :
    (last is_final : Bool) (seq : ℕ) → check_final last is_final seq ≡ ok tt → is_final ≡ last
unfolding check_final
check_final_sound last is_final seq e = ground arith

check_final_complete :
    (last is_final : Bool) (seq : ℕ) → is_final ≡ last → check_final last is_final seq ≡ ok tt
unfolding check_final
check_final_complete last is_final seq e = ground arith

join-cons :
    (first : InferResponse) (count seq expected : ℕ) (acc out : List ℕ) (c : InferResponse)
    (chunks : List (Option InferResponse))
    → join first count seq expected acc (some c ∷ chunks) ≡ ok out
    → (c.offset ≡ expected)
      × (c.is_final ≡ (seq + 1 == count))
      × SameContract first c
      × (join first count
            (seq + 1)
            ((expected + length c.result) % uint64_mod)
            (acc ++ c.result)
            chunks
          ≡ ok out)
unfolding join
join-cons first count seq expected acc out c chunks e =
    ground (arith, check_final_sound (seq + 1 == count) c.is_final seq, contract_sound first c seq)

-- A successful join has read a stream, and returns its bytes.
pub join_sound :
    (first : InferResponse) (count seq expected : ℕ) (acc out : List ℕ)
    (chunks : List (Option InferResponse))
    → join first count seq expected acc chunks ≡ ok out
    → ((i : ℕ) (r : InferResponse)
        → get_elem? chunks i ≡ some (some r)
        → (r.seq ≡ seq + i) × (r.total ≡ count))
    → (chunks ≡ map some (present chunks))
      × IsStream first count seq expected (present chunks)
      × (out ≡ acc ++ bytes (present chunks))
unfolding join
join_sound first count seq expected acc out [] e placed =
    let same : acc ≡ out = cc in (refl, tt, rw append-nil (sym same))
join_sound first count seq expected acc out (none ∷ cs) e placed = cc
join_sound first count seq expected acc out (some c ∷ cs) e placed =
    let (offset, final, contract, rest) = join-cons first count seq expected acc out c cs e in
    let here = placed 0 c refl in
    let (all_there, stream, joined) =
      join_sound first count (seq + 1) ((expected + length c.result) % uint64_mod) (acc ++ c.result)
        out cs rest (λ i r h. let there = placed (suc i) r h in (omega arith, there.1)) in
    (
      ap (◌∷◌ (some c)) all_there,
      (omega arith, here.1, offset, final, contract, stream),
      joined ∙ append_assoc acc c.result (bytes (present cs)),
    )

-- A stream is joined.
pub join_complete :
    (first : InferResponse) (count seq expected : ℕ) (acc : List ℕ) (cs : List InferResponse)
    → IsStream first count seq expected cs
    → join first count seq expected acc (map some cs) ≡ ok (acc ++ bytes cs)
unfolding join
join_complete first count seq expected acc [] s = simp append-nil
join_complete first count seq expected acc (c ∷ cs) s =
    let rest =
      join_complete first count (seq + 1) ((expected + length c.result) % uint64_mod)
        (acc ++ c.result) cs s.5 in
    ground (
      arith,
      rest,
      check_final_complete (seq + 1 == count) c.is_final seq s.3,
      contract_complete first c seq s.4,
      append_assoc acc c.result (bytes cs),
    )
