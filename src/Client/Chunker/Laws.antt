-- ===== src/Client/Chunker/Laws.antt =====
-- The chunks of a payload, and what the requests for them say.
use lumen_sdk.Base.{
  ℕ, zero, suc, ◌+◌, ◌-◌, ◌%◌, ◌^◌, ◌<◌, ◌≤◌, ◌≡◌, ◌⊎◌, inl, inr, refl, sym, ap, ◌∙◌, true, false,
  List, [], ◌∷◌, ◌++◌, ltb, leb, take, drop, length, All, concat, take-append-drop, length-take,
  length-drop, ok, arith, Bool-cases,
}
use lumen_sdk.Base.Int.{ℤ, pos, ltb_ℤ}
use lumen_sdk.Types.Proto.{InferRequest}
use lumen_sdk.Client.Chunker.{
  largest_int, is_before_end, cap_end, slice, chunks_from, chunk_payload, requests_from,
  chunk_requests,
}

-- A chunk that may be sent: not empty, and not larger than the configuration says.
abbrev pub IsChunk : ℕ → List ℕ → Type 0
IsChunk size chunk = (0 < length chunk) × (length chunk ≤ size)

record Chunked (fuel : ℕ) (payload : List ℕ) (size off : ℕ) : Type 0 where
  chunks : List (List ℕ)
  found : chunks_from fuel payload size off ≡ ok chunks
  whole : concat chunks ≡ drop off payload
  small : All (IsChunk size) chunks

drop-nil : (n : ℕ) → drop {A = ℕ} n [] ≡ []
drop-nil zero = refl
drop-nil (suc n) = refl

drop-drop : (n m : ℕ) (xs : List ℕ) → drop m (drop n xs) ≡ drop (n + m) xs
drop-drop zero m xs = ap (λ k. drop k xs) (omega arith)
drop-drop (suc n) m [] = drop-nil m ∙ sym (drop-nil (suc n + m))
drop-drop (suc n) m (x ∷ xs) =
    drop-drop n m xs
    ∙ ap (λ k. drop k (x ∷ xs)) (let e : suc (n + m) ≡ suc n + m = omega arith in e)

drop-beyond : (n : ℕ) (xs : List ℕ) → length xs ≤ n → drop n xs ≡ []
drop-beyond zero [] h = refl
drop-beyond zero (x ∷ xs) h = absurd (omega arith)
drop-beyond (suc n) [] h = refl
drop-beyond (suc n) (x ∷ xs) h = drop-beyond n xs (omega arith)

-- The bounds of the next chunk.
record Next (n size off : ℕ) : Type 0 where
  end : ℕ
  wraps : (off + size) % 2 ^ 64 ≡ off + size
  capped : cap_end (off + size) n ≡ end
  after : off < end
  inside : end ≤ n
  fits : end ≤ off + size
  last : (end ≡ off + size) ⊎ ((end ≡ n) × (n ≤ off + size))

Next-bounds :
    (n size off : ℕ)
    → 0 < size
    → size ≤ largest_int
    → n ≤ 2 ^ 62
    → (off ≡ 0) ⊎ (size ≤ off)
    → off < n
    → Next n size off
Next-bounds n size off h k small start before =
    let below : off + size ≤ largest_int = ground arith in
    elim (Bool-cases (ltb n (off + size))) [
      | inl over ↦ record {
        end = n;
        wraps = omega arith;
        capped = ground arith;
        after = before;
        inside = omega arith;
        fits = ground arith;
        last = inr (refl, ground arith);
      }
      | inr under ↦ record {
        end = off + size;
        wraps = omega arith;
        capped = ground arith;
        after = omega arith;
        inside = ground arith;
        fits = omega arith;
        last = inl refl;
      }
    ]

rest_of :
    (payload : List ℕ) (size off end : ℕ)
    → off < end
    → (end ≡ off + size) ⊎ ((end ≡ length payload) × (length payload ≤ off + size))
    → drop (off + size) payload ≡ drop (end - off) (drop off payload)
rest_of payload size off end h (inl e) =
    sym (drop-drop off (end - off) payload ∙ ap (λ k. drop k payload) (omega (arith, e)))
rest_of payload size off end h (inr (e, beyond)) =
    drop-beyond (off + size) payload beyond
    ∙ sym (
        drop-drop off (end - off) payload
        ∙ drop-beyond (off + (end - off)) payload (omega (arith, e)))

slice_lem :
    (payload : List ℕ) (off end : ℕ)
    → off < end
    → end ≤ length payload
    → slice payload off end ≡ ok (take (end - off) (drop off payload))
unfolding slice
slice_lem payload off end h k = ground arith

chunks_from_ends :
    (fuel : ℕ) (payload : List ℕ) (size off : ℕ)
    → length payload ≤ off
    → off ≤ largest_int
    → Chunked fuel payload size off
unfolding chunks_from
chunks_from_ends zero payload size off h k = record {
  chunks = [];
  found = ground arith;
  whole = sym (drop-beyond off payload h);
  small = tt;
}
chunks_from_ends (suc fuel) payload size off h k = record {
  chunks = [];
  found = ground arith;
  whole = sym (drop-beyond off payload h);
  small = tt;
}

chunks_from_lem :
    (fuel : ℕ) (payload : List ℕ) (size off : ℕ)
    → 0 < size
    → size ≤ largest_int
    → length payload ≤ 2 ^ 62
    → (off ≡ 0) ⊎ (size ≤ off)
    → off ≤ largest_int
    → length payload ≤ off + fuel
    → Chunked fuel payload size off
unfolding chunks_from
chunks_from_lem zero payload size off h k small start range enough =
    chunks_from_ends zero payload size off (omega arith) range
chunks_from_lem (suc fuel) payload size off h k small start range enough =
    elim (Bool-cases (ltb off (length payload))) [
      | inl before ↦
          let n = Next-bounds (length payload) size off h k small start (ground arith) in
          let later =
            chunks_from_lem fuel payload size (off + size) h k small (inr (omega arith))
              (ground arith) (omega arith) in
          let more : is_before_end off (length payload) ≡ true = ground arith in
          let chunk = take (n.end - off) (drop off payload) in
          let long : length chunk ≡ n.end - off =
            length-take (n.end - off) (drop off payload)
            ∙ omega (arith, length-drop off payload, n.inside) in
          record {
            chunks = chunk ∷ later.chunks;
            found =
                rw
                  (
                    more,
                    n.wraps,
                    n.capped,
                    slice_lem payload off n.end n.after n.inside,
                    later.found,
                  )
                  refl;
            whole =
                ap (λ xs. chunk ++ xs) (later.whole ∙ rest_of payload size off n.end n.after n.last)
                ∙ take-append-drop (n.end - off) (drop off payload);
            small = ((omega (arith, long, n.after), omega (arith, long, n.fits)), later.small);
          }
      | inr done ↦ chunks_from_ends (suc fuel) payload size off (ground arith) range
    ]

-- With automatic chunking and a positive chunk size, a payload above the threshold, of at most 2 ^ 62
-- bytes, is cut into chunks that give the payload back in order; none is empty or larger than the size.
pub chunk_payload_lem :
    (payload : List ℕ) (threshold : ℤ) (size : ℕ)
    → 0 < size
    → size ≤ largest_int
    → length payload ≤ 2 ^ 62
    → ltb_ℤ threshold (pos (length payload)) ≡ true
    → (chunks : List (List ℕ)) × (chunk_payload payload
          (record { enable_auto = true; threshold = threshold; max_chunk_bytes = pos size })
        ≡ ok chunks)
      × (concat chunks ≡ payload)
      × All (IsChunk size) chunks
unfolding chunk_payload
chunk_payload_lem payload threshold size h k small above =
    let c =
      chunks_from_lem (length payload) payload size 0 h k small (inl refl) (omega arith)
        (omega arith) in
    let some_size : leb size 0 ≡ false = ground arith in
    (c.chunks, rw (some_size, above) c.found, c.whole, c.small)

-- The requests are numbered from `i` on, each says where its chunk starts, and nothing else of the
-- request is changed.
abbrev pub AreNumbered : InferRequest → ℕ → ℕ → ℕ → List InferRequest → Type 0
AreNumbered req total i offset [] = Unit {0}
AreNumbered req total i offset (r ∷ rs) =
    (r ≡ record req { payload = r.payload; seq = i; total = total; offset = offset })
    × AreNumbered req total (i + 1) (offset + length r.payload) rs

abbrev pub payloads : List InferRequest → List (List ℕ)
payloads [] = []
payloads (r ∷ rs) = r.payload ∷ payloads rs

pub length-concat_cons :
    (c : List ℕ) (cs : List (List ℕ)) → length (concat (c ∷ cs)) ≡ length c + length (concat cs)
length-concat_cons [] cs = omega arith
length-concat_cons (x ∷ c) cs = omega (arith, length-concat_cons c cs)

requests_from_lem :
    (req : InferRequest) (total i offset : ℕ) (chunks : List (List ℕ))
    → i + length chunks < 2 ^ 64
    → offset + length (concat chunks) < 2 ^ 64
    → AreNumbered req total i offset (requests_from req total i offset chunks)
      × (payloads (requests_from req total i offset chunks) ≡ chunks)
unfolding requests_from
requests_from_lem req total i offset [] h k = (tt, refl)
requests_from_lem req total i offset (c ∷ cs) h k =
    let long = length-concat_cons c cs in
    let next : (i + 1) % 2 ^ 64 ≡ i + 1 = omega arith in
    let along : (offset + length c) % 2 ^ 64 ≡ offset + length c = omega (arith, long) in
    let (numbered, same) =
      requests_from_lem req total (i + 1) (offset + length c) cs (omega arith)
        (omega (arith, long)) in
    rw (next, along) ((refl, numbered), ap (λ xs. c ∷ xs) same)

-- The requests for fewer than 2 ^ 64 chunks of less than 2 ^ 64 bytes together carry the chunks in order;
-- each has its number, the number of all, and the number of bytes before it.
pub chunk_requests_lem :
    (req : InferRequest) (chunks : List (List ℕ))
    → length chunks < 2 ^ 64
    → length (concat chunks) < 2 ^ 64
    → AreNumbered req (length chunks) 0 0 (chunk_requests req chunks)
      × (payloads (chunk_requests req chunks) ≡ chunks)
unfolding chunk_requests
chunk_requests_lem req chunks h k =
    let fits : length chunks % 2 ^ 64 ≡ length chunks = omega arith in
    rw fits (requests_from_lem req (length chunks) 0 0 chunks (omega arith) (omega arith))
