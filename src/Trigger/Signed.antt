-- ===== src/Trigger/Signed.antt =====
-- src/debugbundle/trigger_token.py: what stands behind a directive that a request turns on.
use debugbundle_python.Prelude.{
  either, kept, unless, ◌≡◌, sym, ap, refl, ℕ, String, Option, none, some, true, false, List, [],
  ◌∷◌, ◌++◌, ◌==◌, string_eq, if◌then◌else◌, arith, nat_eqb, inl, inr, >>=-eq-some,
}
use debugbundle_python.Prelude.Int.{ℤ, ltb_ℤ}
use debugbundle_python.Prelude.Text.{codes}
use debugbundle_python.Json.{Fields}
use debugbundle_python.Config.Remote.{RemoteProbeDirective, expires_at_ms}
use debugbundle_python.Trigger.{
  TriggerHost, token_prefix, cut_at_stop, segments, without_prefix, with_code,
  extract_trigger_token, has_valid_signature, decode_payload_segment, signed_directive, key_of,
  directives_of, resolve_request_trigger_directives,
}

same_code : (m n : ℕ) → nat_eqb m n ≡ true → m ≡ n
same_code m n same = ground (arith, same)

without_prefix_sound : (ps cs rest : List ℕ) → without_prefix ps cs ≡ some rest → cs ≡ ps ++ rest
without_prefix_sound [] cs rest e = ground arith
without_prefix_sound (p ∷ ps) [] rest e = absurd (ground arith)
without_prefix_sound (p ∷ ps) (c ∷ cs) rest e =
    let (same, more) = kept (nat_eqb c p) (without_prefix ps cs) rest e in
    let first : c ≡ p = same_code c p same in
    let later : cs ≡ ps ++ rest = without_prefix_sound ps cs rest more in cc

with_code_sound :
    (c : ℕ) (rest : Option (List ℕ × List ℕ)) (front back : List ℕ)
    → with_code c rest ≡ some (front, back)
    → (tail : List ℕ) × (rest ≡ some (tail, back)) × (front ≡ c ∷ tail)
with_code_sound c none front back e = absurd (ground arith)
with_code_sound c (some (tail, end)) front back e =
    let same : end ≡ back = ground arith in
    let first : front ≡ c ∷ tail = ground arith in (tail, ap (λ b. some (tail, b)) same, first)

cut_at_stop_sound :
    (cs front back : List ℕ) → cut_at_stop cs ≡ some (front, back) → cs ≡ front ++ (b'.' ∷ back)
cut_at_stop_sound [] front back e = absurd (ground arith)
cut_at_stop_sound (c ∷ cs) front back e =
    elim (either (nat_eqb c b'.') (some ([], cs)) (with_code c (cut_at_stop cs))
      (some (front, back)) e) [
        | inl (stop, same) ↦
            let first : c ≡ b'.' = same_code c b'.' stop in
            let f : front ≡ [] = ground arith in
            let b : back ≡ cs = ground arith in rw (f, b, first) refl
        | inr (other, more) ↦
            let (tail, cut, first) = with_code_sound c (cut_at_stop cs) front back more in
            let later : cs ≡ tail ++ (b'.' ∷ back) = cut_at_stop_sound cs tail back cut in
            rw first (ap (λ cs'. c ∷ cs') later)
      ]

segments_sound :
    (encoded payload signature : List ℕ)
    → segments encoded ≡ some (payload, signature)
    → encoded ≡ payload ++ (b'.' ∷ signature)
segments_sound encoded payload signature e =
    let ((front, back), cut, kept_both) = >>=-eq-some (cut_at_stop encoded) _ e in
    let (full, same) = unless _ (some (front, back)) _ kept_both in
    let f : front ≡ payload = ground arith in
    let b : back ≡ signature = ground arith in
    let whole : encoded ≡ front ++ (b'.' ∷ back) = cut_at_stop_sound encoded front back cut in cc

key_of_sound :
    (k : Option String) (key : String)
    → key_of k ≡ some key
    → (k ≡ some key) × ((key == "") ≡ false)
key_of_sound none key e = absurd (ground arith)
key_of_sound (some k) key e =
    let (full, same) = unless (k == "") (some k) key e in
    let here : k ≡ key = ground arith in (same, rw (sym here) full)

module _ (h : TriggerHost) where
  -- The evidence for a directive: the token of the request has the prefix, a payload and a signature
  -- that the key makes valid, and the payload says the directive, whose time is not over.
  pub record IsSigned (request : Option Fields) (trigger_token_key : Option String) (now_ms : ℤ)
      (d : RemoteProbeDirective) : Type 0 where
    pub fields : Fields
    pub key : String
    pub token : String
    pub payload : List ℕ
    pub signature : List ℕ
    pub requested : request ≡ some fields
    pub keyed : trigger_token_key ≡ some key
    pub not_empty : (key == "") ≡ false
    pub extracted : extract_trigger_token h fields ≡ some token
    pub prefixed : codes token ≡ token_prefix ++ (payload ++ (b'.' ∷ signature))
    pub valid : has_valid_signature h payload signature key ≡ true
    pub decoded : decode_payload_segment h payload ≡ some d
    pub unexpired : ltb_ℤ now_ms (expires_at_ms h.from_iso d.expires_at) ≡ true

  directives_of-eq-cons :
      (o : Option RemoteProbeDirective) (d : RemoteProbeDirective)
      → directives_of o ≡ d ∷ []
      → o ≡ some d
  directives_of-eq-cons none d e = absurd (ground arith)
  directives_of-eq-cons (some c) d e = ground arith

  -- Where a request turns a directive on, that directive is signed: the request holds a token, in
  -- the header or in the query, that has the prefix, a payload and a signature that the key makes
  -- valid, the payload decodes to the directive, and its time is not over.
  pub resolve_request_trigger_directives-IsSigned :
      (request : Option Fields) (trigger_token_key : Option String) (now_ms : ℤ)
      (d : RemoteProbeDirective)
      → resolve_request_trigger_directives h request trigger_token_key now_ms ≡ d ∷ []
      → IsSigned request trigger_token_key now_ms d
  unfolding resolve_request_trigger_directives signed_directive
  resolve_request_trigger_directives-IsSigned request k now_ms d resolved =
      let found = directives_of-eq-cons _ d resolved in
      let (fields, requested, r1) = >>=-eq-some request _ found in
      let (key, keyed, r2) = >>=-eq-some (key_of k) _ r1 in
      let (token, extracted, r3) = >>=-eq-some (extract_trigger_token h fields) _ r2 in
      let (encoded, prefixed, r4) = >>=-eq-some (without_prefix token_prefix (codes token)) _ r3 in
      let ((payload, signature), cut, r5) = >>=-eq-some (segments encoded) _ r4 in
      let (c, checked, r6) =
        >>=-eq-some
          (if has_valid_signature h payload signature key
            then decode_payload_segment h payload
            else none)
          _ r5 in
      let (valid, decoded) = kept (has_valid_signature h payload signature key) _ c checked in
      let (unexpired, same) =
        kept (ltb_ℤ now_ms (expires_at_ms h.from_iso c.expires_at)) (some c) d r6 in
      let same : some c ≡ some d = same in
      let (has_key, not_empty) = key_of_sound k key keyed in
      let same' : c ≡ d = ground arith in
      let e1 = without_prefix_sound token_prefix (codes token) encoded prefixed in
      let e2 = segments_sound encoded payload signature cut in
      record {
        fields = fields;
        key = key;
        token = token;
        payload = payload;
        signature = signature;
        requested = requested;
        keyed = has_key;
        not_empty = not_empty;
        extracted = extracted;
        prefixed = cc;
        valid = valid;
        decoded = cc;
        unexpired = rw (sym same') unexpired;
      }
