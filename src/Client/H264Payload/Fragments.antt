-- ===== src/Client/H264Payload/Fragments.antt =====
-- What the payloads of a NAL unit do to the assembler.
use meeting_system.Prelude.{
  ℕ, zero, suc, ◌≡◌, ◌≢◌, ◌≤◌, ◌<◌, refl, ◌+◌, ◌-◌, ◌*◌, ◌/◌, ◌%◌, Bool, true, false, List, [], ◌∷◌,
  ◌++◌, ◌==◌, leb, length, take, drop, arith, ◌⊎◌, inl, inr, Bool-cases, take-append-drop,
  length-drop,
}
use meeting_system.Prelude.Assoc.{is_empty}
use meeting_system.Prelude.Bytes.{append_assoc}
use meeting_system.Client.H264Payload.{
  H264AccessUnitAssembler, fu_header, fragments, packets_of, take_payload, take_fragment,
}

-- The assembler in the middle of an access unit, with nothing lost.
abbrev pub halfway :
    (sequence timestamp : ℕ) → (access_unit fragmented : List ℕ) → H264AccessUnitAssembler
halfway sequence timestamp access_unit fragmented = record {
  timestamp = timestamp;
  has_timestamp = true;
  expected_sequence = sequence;
  has_expected_sequence = true;
  access_unit_corrupted = false;
  access_unit = access_unit;
  fragmented_nalu = fragmented;
}

-- The payloads take the assembler from the first access unit and fragment to the second ones.
unfoldable pub Absorbs :
    (access_unit fragmented : List ℕ) → List (List ℕ) → (access_unit' fragmented' : List ℕ) → Type 0
Absorbs acc frag [] acc'' frag'' = (acc ≡ acc'') × (frag ≡ frag'')
Absorbs acc frag (payload ∷ payloads) acc'' frag'' =
    (acc' : List ℕ) × (frag' : List ℕ) × (is_empty payload ≡ false)
    × ((s t : ℕ) → take_payload (halfway s t acc frag) payload ≡ (true, halfway s t acc' frag'))
    × Absorbs acc' frag' payloads acc'' frag''

pub append-Absorbs :
    (acc frag : List ℕ) (ps qs : List (List ℕ)) (acc' frag' acc'' frag'' : List ℕ)
    → Absorbs acc frag ps acc' frag'
    → Absorbs acc' frag' qs acc'' frag''
    → Absorbs acc frag (ps ++ qs) acc'' frag''
unfolding Absorbs
append-Absorbs acc frag [] qs acc' frag' acc'' frag'' (e, e') h = rw (e, e') h
append-Absorbs acc frag (p ∷ ps) qs acc' frag' acc'' frag'' (a, f, some_payload, taken, later) h =
    (a, f, some_payload, taken, append-Absorbs a f ps qs acc' frag' acc'' frag'' later h)

-- A fragment that is not the first one.
continue_fragment :
    (s t : ℕ) (acc : List ℕ) (c : ℕ) (cs : List ℕ) (h : ℕ) (bytes : List ℕ)
    → take_payload (halfway s t acc (c ∷ cs)) ((h / 32 * 32 + 28) ∷ fu_header h false false ∷ bytes)
      ≡ (true, halfway s t acc (c ∷ cs ++ bytes))
unfolding take_payload take_fragment
continue_fragment s t acc c cs h bytes =
    let type : (h / 32 * 32 + 28) % 32 ≡ 28 = omega arith in
    let start : (h % 32 + 0) / 128 % 2 ≡ 0 = omega arith in
    let end : (h % 32 + 0) / 64 % 2 ≡ 0 = omega arith in rw (type, start, end) refl

end_fragment :
    (s t : ℕ) (acc : List ℕ) (c : ℕ) (cs : List ℕ) (h : ℕ) (bytes : List ℕ)
    → take_payload (halfway s t acc (c ∷ cs)) ((h / 32 * 32 + 28) ∷ fu_header h false true ∷ bytes)
      ≡ (true, halfway s t (acc ++ (0 ∷ 0 ∷ 0 ∷ 1 ∷ c ∷ cs ++ bytes)) [])
unfolding take_payload take_fragment
end_fragment s t acc c cs h bytes =
    let type : (h / 32 * 32 + 28) % 32 ≡ 28 = omega arith in
    let start : (h % 32 + 64) / 128 % 2 ≡ 0 = omega arith in
    let end : (h % 32 + 64) / 64 % 2 ≡ 1 = omega arith in rw (type, start, end) refl

begin_fragment :
    (s t : ℕ) (acc : List ℕ) (h : ℕ) (bytes : List ℕ)
    → take_payload (halfway s t acc []) ((h / 32 * 32 + 28) ∷ fu_header h true false ∷ bytes)
      ≡ (true, halfway s t acc (h ∷ bytes))
unfolding take_payload take_fragment
begin_fragment s t acc h bytes =
    let type : (h / 32 * 32 + 28) % 32 ≡ 28 = omega arith in
    let start : (h % 32 + 128) / 128 % 2 ≡ 1 = omega arith in
    let end : (h % 32 + 128) / 64 % 2 ≡ 0 = omega arith in
    let header : (h / 32 * 32 + 28) / 32 * 32 + (h % 32 + 128) % 32 ≡ h = omega arith in
    rw (type, start, end, header) refl

fragments-nil : (fuel h n : ℕ) (first : Bool) → fragments fuel h n first [] ≡ []
unfolding fragments
fragments-nil zero h n first = refl
fragments-nil (suc fuel) h n first = refl

take_all : (n : ℕ) (xs : List ℕ) → is_empty (drop n xs) ≡ true → take n xs ≡ xs
take_all zero [] e = refl
take_all zero (x ∷ xs) e = ground (arith, e)
take_all (suc n) [] e = refl
take_all (suc n) (x ∷ xs) e = rw (take_all n xs e) refl

List-cases : (xs : List ℕ) → (xs ≡ []) ⊎ ((x : ℕ) × (rest : List ℕ) × (xs ≡ x ∷ rest))
List-cases [] = inl refl
List-cases (x ∷ xs) = inr (x, xs, refl)

fragments-Absorbs :
    (fuel h n : ℕ) (acc : List ℕ) (c : ℕ) (cs : List ℕ) (b : ℕ) (bytes : List ℕ)
    → length (b ∷ bytes) ≤ fuel
    → Absorbs acc
        (c ∷ cs)
        (fragments fuel h (suc n) false (b ∷ bytes))
        (acc ++ (0 ∷ 0 ∷ 0 ∷ 1 ∷ c ∷ cs ++ (b ∷ bytes)))
        []
unfolding fragments Absorbs
fragments-Absorbs zero h n acc c cs b bytes enough = absurd (omega (arith, enough))
fragments-Absorbs (suc fuel) h n acc c cs b bytes enough = elim (List-cases (drop n bytes)) [
  | inl e ↦
      rw (e, fragments-nil fuel h (suc n) false)
        (
          acc ++ (0 ∷ 0 ∷ 0 ∷ 1 ∷ c ∷ cs ++ (b ∷ take n bytes)),
          [],
          refl,
          (λ s t. end_fragment s t acc c cs h (b ∷ take n bytes)),
          (rw (take_all n bytes (rw e refl)) refl, refl),
        )
  | inr (x, xs, e) ↦
      let back : (cs ++ (b ∷ take n bytes)) ++ (x ∷ xs) ≡ cs ++ (b ∷ bytes) =
        rw (append_assoc cs (b ∷ take n bytes) (x ∷ xs), ← e, take-append-drop n bytes) refl in
      let size = length-drop n bytes in
      let rest = rw e at size in
      let later =
        fragments-Absorbs fuel h n acc c (cs ++ (b ∷ take n bytes)) x xs
          (omega (arith, enough, rest)) in
      rw e (
        acc,
        c ∷ cs ++ (b ∷ take n bytes),
        refl,
        (λ s t. continue_fragment s t acc c cs h (b ∷ take n bytes)),
        rw back at later,
      )
]

first_fragment-Absorbs :
    (acc : List ℕ) (h n b : ℕ) (bytes : List ℕ)
    → n < length bytes
    → Absorbs acc []
        (fragments (length (b ∷ bytes)) h (suc n) true (b ∷ bytes))
        (acc ++ (0 ∷ 0 ∷ 0 ∷ 1 ∷ h ∷ b ∷ bytes))
        []
unfolding fragments Absorbs
first_fragment-Absorbs acc h n b bytes more = elim (List-cases (drop n bytes)) [
  | inl e ↦
      let size = length-drop n bytes in
      let none_left = rw e at size in absurd (omega (arith, more, none_left))
  | inr (x, xs, e) ↦
      let back : take n bytes ++ (x ∷ xs) ≡ bytes = rw (← e, take-append-drop n bytes) refl in
      let size = length-drop n bytes in
      let rest = rw e at size in
      let later =
        fragments-Absorbs (length bytes) h n acc h (b ∷ take n bytes) x xs (omega (arith, rest)) in
      rw e (
        acc,
        h ∷ b ∷ take n bytes,
        refl,
        (λ s t. begin_fragment s t acc h (b ∷ take n bytes)),
        rw back at later,
      )
]

single-Absorbs :
    (acc : List ℕ) (h : ℕ) (bytes : List ℕ)
    → h % 32 ≢ 28
    → Absorbs acc [] ((h ∷ bytes) ∷ []) (acc ++ (0 ∷ 0 ∷ 0 ∷ 1 ∷ h ∷ bytes)) []
unfolding Absorbs take_payload
single-Absorbs acc h bytes type = (_, _, refl, (λ s t. ground (arith, type)), (refl, refl))

fragmented-Absorbs :
    (acc : List ℕ) (h n : ℕ) (bytes : List ℕ)
    → 3 + n < length (h ∷ bytes)
    → Absorbs acc []
        (fragments (length bytes) h (suc n) true bytes)
        (acc ++ (0 ∷ 0 ∷ 0 ∷ 1 ∷ h ∷ bytes))
        []
fragmented-Absorbs acc h n [] more = absurd (omega (arith, more))
fragmented-Absorbs acc h n (b ∷ bytes) more =
    first_fragment-Absorbs acc h n b bytes (omega (arith, more))

-- The payloads of a NAL unit, put together, are the NAL unit behind a start code.
pub packets_of-Absorbs :
    (room : ℕ) (acc : List ℕ) (h : ℕ) (bytes : List ℕ)
    → h % 32 ≢ 28
    → Absorbs acc [] (packets_of (3 + room) (h ∷ bytes)) (acc ++ (0 ∷ 0 ∷ 0 ∷ 1 ∷ h ∷ bytes)) []
unfolding packets_of
packets_of-Absorbs room acc h bytes type = elim (Bool-cases (leb (length (h ∷ bytes)) (3 + room))) [
  | inl fits ↦ rw fits (single-Absorbs acc h bytes type)
  | inr large ↦
      let fragment_bytes : 3 + room - 2 ≡ suc room = omega arith in
      let some_bytes : suc room == 0 ≡ false = ground arith in
      rw (large, fragment_bytes, some_bytes)
        (fragmented-Absorbs acc h room bytes (ground (arith, large)))
]
