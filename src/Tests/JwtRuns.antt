-- ===== src/Tests/JwtRuns.antt =====
-- The theorems on the relay's tokens at concrete inputs.
use laye.Base.{
  ◌≡◌, refl, ◌+◌, ◌-◌, ◌∷◌, [], Bytes, true, Option, none, some, codes, arith, ok, bytes_eq,
  bytes_eq_refl, Lacks, is_some, if◌then◌else◌,
}
use laye.Relaye.Jwt.{
  Value, Jose, to_uppercase, dpop_header, dpop_claims, dpop_proof, assertion_header,
  assertion_claims, client_assertion,
}
use laye.Relaye.Jwt.Opened.{
  at, Verifier, IsSound, ReadsBack, Opened, open_jwt, accepts_dpop, accepts_assertion,
}
use laye.Relaye.Jwt.Verified.{accepts_dpop-dpop_proof, accepts_assertion-client_assertion}

-- Each code is written 47 higher, so that no dot comes out.
abbrev shift : Bytes → Bytes
shift [] = []
shift (c ∷ b) = (c + 47) ∷ shift b

abbrev unshift : Bytes → Option Bytes
unshift [] = some []
unshift (c ∷ b) = elim (unshift b) [ none ↦ none | some r ↦ some ((c - 47) ∷ r) ]

unshift-shift : (b : Bytes) → unshift (shift b) ≡ some b
unshift-shift [] = refl
unshift-shift (c ∷ b) = ground (arith, unshift-shift b)

shift-Lacks : (b : Bytes) → Lacks b'.' (shift b)
shift-Lacks [] = tt
shift-Lacks (c ∷ b) = (λ e. omega (arith, e), shift-Lacks b)

-- A header has a `typ`, and claims have none.
abbrev to_vec : Value → Bytes
to_vec v = if is_some (at (codes "typ" ∷ []) v) then codes "h" else codes "c"

abbrev jose : Jose (Unit {0})
jose = record {
  b64url_encode = shift;
  b64url_decode = unshift;
  sha256 = λ b. b;
  to_vec = λ v. ok (to_vec v);
  sign = λ key m. codes "sealed";
  point = λ key. (some (codes "x"), some (codes "y"));
}

abbrev header : Value
header = dpop_header jose tt

abbrev claims : Value
claims =
    dpop_claims jose (codes "post") (codes "https://pds/par") (some (codes "n1")) none (codes "r") 7

abbrev reader : Value → Value → Verifier
reader h c = record {
  field = λ t path. if bytes_eq t (codes "h") then at path h else at path c;
  verify = λ x y m s. bytes_eq s (codes "sealed");
}

jose-IsSound : (h c : Value) → IsSound jose (reader h c)
jose-IsSound h c = record {
  decode-encode = unshift-shift;
  encode-Lacks = shift-Lacks;
  verify-sign = λ key. (codes "x", (codes "y", (refl, λ m. bytes_eq_refl (codes "sealed"))));
}

header_back : ReadsBack jose (reader header claims) header
unfolding dpop_header bytes_eq
header_back = (codes "h", (refl, λ path. refl))

claims_back : ReadsBack jose (reader header claims) claims
unfolding dpop_claims bytes_eq
claims_back = (codes "c", (refl, λ path. refl))

accepts_dpop-dpop_proof_example :
    (t : Bytes) × ((o : Opened) × ((dpop_proof jose tt
            (codes "post")
            (codes "https://pds/par")
            (some (codes "n1"))
            none
            (codes "r")
            7
          ≡ ok t)
        × ((open_jwt jose (reader header claims) t ≡ some o)
            × (accepts_dpop jose
                  (reader header claims)
                  (to_uppercase (codes "post"))
                  (codes "https://pds/par")
                  (some (codes "n1"))
                  none
                  o
                ≡ true))))
accepts_dpop-dpop_proof_example =
    accepts_dpop-dpop_proof jose (reader header claims) tt (codes "post") (codes "https://pds/par")
      (some (codes "n1")) none (codes "r") 7 (jose-IsSound header claims) header_back claims_back

abbrev assertion : Value
assertion = assertion_header jose (codes "k1")

abbrev asserted : Value
asserted = assertion_claims jose (codes "me") (codes "https://as") (codes "r") 7

assertion_back : ReadsBack jose (reader assertion asserted) assertion
unfolding assertion_header bytes_eq
assertion_back = (codes "h", (refl, λ path. refl))

asserted_back : ReadsBack jose (reader assertion asserted) asserted
unfolding assertion_claims bytes_eq
asserted_back = (codes "c", (refl, λ path. refl))

accepts_assertion-client_assertion_example :
    (t : Bytes) × ((o : Opened) × ((client_assertion jose tt
            (codes "k1")
            (codes "me")
            (codes "https://as")
            (codes "r")
            7
          ≡ ok t)
        × ((open_jwt jose (reader assertion asserted) t ≡ some o)
            × (accepts_assertion jose
                  (reader assertion asserted)
                  (some (codes "x"))
                  (some (codes "y"))
                  (codes "k1")
                  (codes "me")
                  (codes "https://as")
                  30
                  o
                ≡ true))))
accepts_assertion-client_assertion_example =
    accepts_assertion-client_assertion jose (reader assertion asserted) tt (codes "k1") (codes "me")
      (codes "https://as") (codes "r") 7 30 (jose-IsSound assertion asserted) assertion_back
      asserted_back (omega arith) (omega arith)
