-- ===== src/Ocicrypt/Toy.antt =====
-- Texts of options that can be read back, for the tests.
use guest_components.Prelude.{
  ℕ, zero, suc, ◌+◌, ◌-◌, ◌≡◌, refl, ap, ◌∙◌, false, some, List, [], ◌∷◌, ◌++◌, Str, Bytes, length,
  take, drop, take-length_append, drop-length_append, contains, is_empty, arith,
}
use guest_components.Ocicrypt.Keys.{Texts}
use guest_components.Ocicrypt.Wrapping.{IsReadBack}

-- A text behind its length.
abbrev put : Str → Bytes → Bytes
put s rest = length s ∷ (s ++ rest)

abbrev got : Bytes → Str × Bytes
got [] = ([], [])
got (n ∷ t) = (take n t, drop n t)

got-put : (s : Str) (rest : Bytes) → got (put s rest) ≡ (s, rest)
got-put s rest i = (take-length_append s rest i, drop-length_append s rest i)

abbrev put_all : List (Str × Bytes) → Bytes → Bytes
put_all [] rest = rest
put_all ((k, v) ∷ m) rest = put k (put v (put_all m rest))

abbrev got_all : ℕ → Bytes → List (Str × Bytes) × Bytes
got_all zero t = ([], t)
got_all (suc n) t =
    let (k, behind) = got t in
    let (v, last) = got behind in let (m, rest) = got_all n last in ((k, v) ∷ m, rest)

got_all-put_all :
    (m : List (Str × Bytes)) (rest : Bytes) → got_all (length m) (put_all m rest) ≡ (m, rest)
got_all-put_all [] rest = refl
got_all-put_all ((k, v) ∷ m) rest =
    ap
      (λ (p : Str × Bytes).
        let (x, last) = got p.1 in let (n, end) = got_all (length m) last in ((p.0, x) ∷ n, end))
      (got-put k (put v (put_all m rest)))
    ∙ ap (λ (q : Str × Bytes). let (n, end) = got_all (length m) q.1 in ((k, q.0) ∷ n, end))
        (got-put v (put_all m rest))
    ∙ ap (λ (r : List (Str × Bytes) × Bytes). ((k, v) ∷ r.0, r.1)) (got_all-put_all m rest)

abbrev shift : Bytes → Str
shift [] = []
shift (b ∷ s) = (b + 45) ∷ shift s

abbrev unshift : Str → Bytes
unshift [] = []
unshift (c ∷ s) = (c - 45) ∷ unshift s

unshift-shift : (b : Bytes) → unshift (shift b) ≡ b
unshift-shift [] = refl
unshift-shift (b ∷ s) =
    let same : b + 45 - 45 ≡ b = omega arith in
    ap (λ x. x ∷ unshift (shift s)) same ∙ ap (◌∷◌ b) (unshift-shift s)

shift-NoComma : (b : Bytes) → contains b',' (shift b) ≡ false
unfolding contains
shift-NoComma [] = refl
shift-NoComma (b ∷ s) = ground (arith, shift-NoComma s)

shift-some : (b : Bytes) → is_empty b ≡ false → is_empty (shift b) ≡ false
unfolding is_empty
shift-some [] h = h
shift-some (b ∷ s) h = refl

-- Three texts and the pairs between them.
abbrev wrote : Str → List (Str × Bytes) → Bytes → Bytes
wrote a m b = put a (length m ∷ put_all m (put b []))

abbrev pairs_of : Bytes → List (Str × Bytes) × Bytes
pairs_of [] = ([], [])
pairs_of (n ∷ t) = got_all n t

abbrev reads : Bytes → Str × (List (Str × Bytes) × Bytes)
reads t = let (a, behind) = got t in let (m, last) = pairs_of behind in (a, (m, (got last).0))

reads-wrote : (a : Str) (m : List (Str × Bytes)) (b : Bytes) → reads (wrote a m b) ≡ (a, (m, b))
reads-wrote a m b =
    ap (λ (p : Str × Bytes). let (n, last) = pairs_of p.1 in (p.0, (n, (got last).0)))
      (got-put a (length m ∷ put_all m (put b [])))
    ∙ ap (λ (r : List (Str × Bytes) × Bytes). (a, (r.0, (got r.1).0)))
        (got_all-put_all m (put b []))
    ∙ ap (λ (q : Str × Bytes). (a, (m, q.0))) (got-put b [])

abbrev pub texts : Texts
texts = record {
  encode = shift;
  decode = λ s. some (unshift s);
  secret_to_vec = λ o. wrote o.symmetric_key o.cipher_options o.digest;
  secret_from_slice = λ t.
      let (key, (options, digest)) = reads t in
      some (record { symmetric_key = key; cipher_options = options; digest = digest });
  shared_to_vec = λ o. wrote o.cipher_type o.cipher_options o.hmac;
  shared_from_slice = λ t.
      let (kind, (options, hmac)) = reads t in
      some (record { cipher_type = kind; cipher_options = options; hmac = hmac });
}

pub texts-IsReadBack : IsReadBack texts
unfolding is_empty
texts-IsReadBack = record {
  decoded = λ b. ap some (unshift-shift b);
  no_comma = shift-NoComma;
  nonempty = shift-some;
  secret_read = λ o.
      ap
        (λ (r : Str × (List (Str × Bytes) × Bytes)).
          some (record { symmetric_key = r.0; cipher_options = r.1.0; digest = r.1.1 }))
        (reads-wrote o.symmetric_key o.cipher_options o.digest);
  secret_some = λ o. refl;
  shared_read = λ o.
      ap
        (λ (r : Str × (List (Str × Bytes) × Bytes)).
          some (record { cipher_type = r.0; cipher_options = r.1.0; hmac = r.1.1 }))
        (reads-wrote o.cipher_type o.cipher_options o.hmac);
}
