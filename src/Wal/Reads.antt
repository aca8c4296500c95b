-- ===== src/Wal/Reads.antt =====
-- src/wal.rs: the facts of an entry are what the scan reads, and a part of their bytes is not.
use minigraf.Prelude.{
  ℕ, zero, suc, ◌+◌, ◌-◌, ◌*◌, ◌^◌, ◌≤◌, ◌<◌, ◌≡◌, refl, ap, ◌∙◌, inl, inr, true, false, none, some,
  List, [], ◌∷◌, ◌++◌, append_assoc, arith, ltb, leb, ltb→lt, lt→ltb, ltb-false, Bool-cases, length,
  take, All, length-append, take-append, drop-append,
}
use minigraf.Error.{ok}
use minigraf.Bytes.{to_le, from_le}
use minigraf.Bytes.RoundTrip.{length-to_le, from_le-to_le}
use minigraf.Graph.Fact.{Fact}
use minigraf.Storage.Packed.{Serialiser, max_fact_bytes}
use minigraf.Wal.Format.{read_exact, serialize_facts}
use minigraf.Wal.Scan.{read_facts, max_fact_size}

pub read_exact-append :
    (n : ℕ) (xs ys : List ℕ) → length xs ≡ n → read_exact n (xs ++ ys) ≡ some (xs, ys)
unfolding read_exact
read_exact-append n xs ys h =
    let whole : leb n (length (xs ++ ys)) ≡ true = ground (arith, h, length-append xs ys) in
    rw (whole, take-append xs ys n h, drop-append xs ys n h) refl

pub read_exact-short : (n : ℕ) (bytes : List ℕ) → length bytes < n → read_exact n bytes ≡ none
unfolding read_exact
read_exact-short n bytes h =
    let short : leb n (length bytes) ≡ false = ground (arith, h) in rw short refl

take-append_past :
    (xs ys : List ℕ) (n k : ℕ) → length xs ≡ k → k ≤ n → take n (xs ++ ys) ≡ xs ++ take (n - k) ys
take-append_past [] ys n k e h = ap (λ m. take m ys) (omega (arith, e))
take-append_past (x ∷ xs) ys zero k e h = absurd (omega arith)
take-append_past (x ∷ xs) ys (suc n) k e h = ap (◌∷◌ x) (
    take-append_past xs ys n (k - 1) (omega arith) (omega arith)
    ∙ ap (λ m. xs ++ take m ys) (omega arith))

pub length-take_le : (n : ℕ) (xs : List ℕ) → length (take n xs) ≤ n
length-take_le zero xs = omega arith
length-take_le (suc n) [] = omega arith
length-take_le (suc n) (x ∷ xs) = omega (arith, length-take_le n xs)

-- Of a part of `xs ++ ys` that ends within `xs`, `xs` cannot be read.
pub read_exact-torn : (n k : ℕ) (xs ys : List ℕ) → n < k → read_exact k (take n (xs ++ ys)) ≡ none
read_exact-torn n k xs ys h =
    read_exact-short k (take n (xs ++ ys)) (omega (arith, length-take_le n (xs ++ ys)))

-- Of a part that ends later, it can.
pub read_exact-past :
    (n k : ℕ) (xs ys : List ℕ)
    → length xs ≡ k
    → k ≤ n
    → read_exact k (take n (xs ++ ys)) ≡ some (xs, take (n - k) ys)
read_exact-past n k xs ys e h =
    rw (take-append_past xs ys n k e h) (read_exact-append k xs (take (n - k) ys) e)

-- A fact that the log takes and reads back.
pub record IsLoggable (postcard : Serialiser) (fact : Fact) : Type 0 where
  pub fact_bytes : List ℕ
  pub serialises : postcard.to_allocvec fact ≡ ok fact_bytes
  pub fits : length fact_bytes ≤ max_fact_bytes
  pub decodes : postcard.from_bytes fact_bytes ≡ ok fact

-- What the facts of an entry become in the log.
pub record AreLogged (postcard : Serialiser) (facts : List Fact) : Type 0 where
  pub body : List ℕ
  pub serialises : serialize_facts postcard facts ≡ ok body
  pub reads :
      (rest : List ℕ)
      → read_facts postcard (length facts) (body ++ rest) ≡ some (facts, (body, rest))
  pub torn : (n : ℕ) → n < length body → read_facts postcard (length facts) (take n body) ≡ none
  pub size : 4 * length facts ≤ length body

fact_len_eq : (n : ℕ) → n ≤ max_fact_bytes → from_le (to_le 4 n) ≡ n
fact_len_eq n h = from_le-to_le 4 n (omega arith)

module _ (postcard : Serialiser) (fact : Fact) (facts : List Fact) (f : IsLoggable postcard fact)
    (fs : AreLogged postcard facts) where
  abbrev body : List ℕ
  body = to_le 4 (length f.fact_bytes) ++ (f.fact_bytes ++ fs.body)

  length-body : length body ≡ 4 + length f.fact_bytes + length fs.body
  length-body = omega (
    arith,
    length-append (to_le 4 (length f.fact_bytes)) (f.fact_bytes ++ fs.body),
    length-append f.fact_bytes fs.body,
    length-to_le 4 (length f.fact_bytes),
  )

  small : ltb max_fact_size (length f.fact_bytes) ≡ false
  small = ltb-false max_fact_size (length f.fact_bytes) (omega (arith, f.fits))

  serialises_more : serialize_facts postcard (fact ∷ facts) ≡ ok body
  unfolding serialize_facts
  serialises_more =
      let fits : ltb max_fact_bytes (length f.fact_bytes) ≡ false = ltb-false _ _ f.fits in
      let word : ltb (length f.fact_bytes) (2 ^ 32) ≡ true = lt→ltb _ _ (omega (arith, f.fits)) in
      rw (f.serialises, fits, word, fs.serialises) refl

  reads_more :
      (rest : List ℕ)
      → read_facts postcard (suc (length facts)) (body ++ rest) ≡ some (fact ∷ facts, (body, rest))
  unfolding read_facts
  reads_more rest =
      rw
        (
          append_assoc (to_le 4 (length f.fact_bytes)) (f.fact_bytes ++ fs.body) rest,
          read_exact-append 4 (to_le 4 (length f.fact_bytes)) ((f.fact_bytes ++ fs.body) ++ rest)
              (length-to_le 4 (length f.fact_bytes)),
          fact_len_eq (length f.fact_bytes) f.fits,
          small,
          append_assoc f.fact_bytes fs.body rest,
          read_exact-append (length f.fact_bytes) f.fact_bytes (fs.body ++ rest) refl,
          f.decodes,
          fs.reads rest,
        )
        refl

  torn_more :
      (n : ℕ) → n < length body → read_facts postcard (suc (length facts)) (take n body) ≡ none
  unfolding read_facts
  torn_more n h = elim (Bool-cases (ltb n 4)) [
    | inl early ↦
        rw
          (read_exact-torn n 4 (to_le 4 (length f.fact_bytes)) (f.fact_bytes ++ fs.body)
            (ltb→lt n 4 early))
          refl
    | inr later ↦
        rw
          (
            read_exact-past n 4 (to_le 4 (length f.fact_bytes)) (f.fact_bytes ++ fs.body)
                (length-to_le 4 (length f.fact_bytes)) (ground (arith, later)),
            fact_len_eq (length f.fact_bytes) f.fits,
            small,
          )
          (elim (Bool-cases (ltb (n - 4) (length f.fact_bytes))) [
            | inl cut ↦
                rw
                  (read_exact-torn (n - 4) (length f.fact_bytes) f.fact_bytes fs.body
                    (ltb→lt _ _ cut))
                  refl
            | inr whole ↦
                rw
                  (
                    read_exact-past (n - 4) (length f.fact_bytes) f.fact_bytes fs.body refl
                        (ground (arith, whole)),
                    f.decodes,
                    fs.torn (n - 4 - length f.fact_bytes)
                        (ground (arith, h, later, whole, length-body)),
                  )
                  refl
          ])
  ]

-- Facts that can be logged are, and are read back.
pub facts_AreLogged :
    (postcard : Serialiser) (facts : List Fact)
    → All (IsLoggable postcard) facts
    → AreLogged postcard facts
unfolding serialize_facts read_facts
facts_AreLogged postcard [] h = record {
  body = [];
  serialises = refl;
  reads = λ rest. refl;
  torn = λ n k. absurd (omega (arith, k));
  size = omega arith;
}
facts_AreLogged postcard (fact ∷ facts) (f, h) =
    let fs : AreLogged postcard facts = facts_AreLogged postcard facts h in
    record {
      body = body postcard fact facts f fs;
      serialises = serialises_more postcard fact facts f fs;
      reads = reads_more postcard fact facts f fs;
      torn = torn_more postcard fact facts f fs;
      size = omega (arith, fs.size, length-body postcard fact facts f fs);
    }
