-- ===== src/Contracts/Tdd/Changes.antt =====
-- The functions of packages/contracts/src/tdd-attestation.mjs find exactly the paths that the
-- specification of `Named` means.
use wendkeep.Prelude.{
  ◌≡◌, ◌≢◌, ◌↔◌, refl, Bool, true, false, not, ◌&&◌, ◌||◌, Option, none, some, List, [], ◌∷◌, ◌++◌,
  arith, inl, inr, Bool-cases, if◌then◌else◌, sym, ◌∙◌, subst, ap, any, any-append, any-sort, keep,
  sort,
}
use wendkeep.Prelude.Text.{
  Text, text_eq, text_leb, text_eq_iff, eq_of_text_eq, includes, dedupe, starts_with,
}
use wendkeep.Prelude.Text.Affix.{starts_with_iff}
use wendkeep.Prelude.Table.{Table, lookup}
use wendkeep.Prelude.Result.{ok, ◌>>=◌, >>=-eq-ok, ok-injective}
use wendkeep.Contracts.Strings.{unique_strings}
use wendkeep.Contracts.Strings.Laws.{includes-dedupe}
use wendkeep.Contracts.Evaluate.{is_empty}
use wendkeep.Contracts.Tdd.Paths.{
  test_paths_of, normalized_path, normalized_paths, manifest_at, keys_of, changed_manifest_paths,
  is_declared, undeclared_paths,
}
use wendkeep.Contracts.Tdd.Machine.{GreenInput, production_paths_of}
use wendkeep.Contracts.Tdd.Attestation.{Red, Attestation}
use wendkeep.Contracts.Tdd.Named.{
  NamedBy, AreNext, IsOutside, AreProduction, true_or_false, either, in_second, is_test,
  normalized_unique-NamedBy,
}

includes-keep :
    (test : Text → Bool) (xs : List Text) (u : Text)
    → includes (keep test xs) u ≡ (test u && includes xs u)
includes-keep test [] u = ground arith
includes-keep test (x ∷ xs) u = elim (Bool-cases (text_eq x u)) [
  | inl same ↦
      let e : test x ≡ test u = ap test (eq_of_text_eq x u same) in
      ground (arith, includes-keep test xs u, e, same)
  | inr other ↦ ground (arith, includes-keep test xs u, other)
]

lookup-absent :
    (t : Table Text) (path : Text) → includes (keys_of t) path ≡ false → lookup path t ≡ none
unfolding keys_of lookup
lookup-absent [] path h = refl
lookup-absent ((k, hash) ∷ t) path h = elim (Bool-cases (text_eq k path)) [
  | inl e ↦ true_or_false (sym (ap (λ b. b || includes (keys_of t) path) e) ∙ h)
  | inr e ↦
      ap (λ b. if b then some hash else lookup path t) e
      ∙ lookup-absent t path (sym (ap (λ b. b || includes (keys_of t) path) e) ∙ h)
]

-- A path that is no key has an empty hash.
manifest_at-absent :
    (t : Table Text) (path : Text) → includes (keys_of t) path ≡ false → manifest_at t path ≡ []
unfolding manifest_at
manifest_at-absent t path h =
    ap (λ (o : Option Text). elim o [ none ↦ [] | some hash ↦ hash ]) (lookup-absent t path h)

changed_manifest_paths_iff :
    (left right : Table Text) (path : Text)
    → (includes (changed_manifest_paths left right) path ≡ true)
      ↔ (manifest_at left path ≢ manifest_at right path)
unfolding changed_manifest_paths
changed_manifest_paths_iff left right path =
    let test = λ (u : Text). not (text_eq (manifest_at left u) (manifest_at right u)) in
    let keys = keys_of left ++ keys_of right in
    let found : includes (changed_manifest_paths left right) path
        ≡ (test path && (includes (keys_of left) path || includes (keys_of right) path)) =
      any-sort text_leb (λ x. text_eq x path) (keep test (dedupe keys))
      ∙ includes-keep test (dedupe keys) path
      ∙ ap (λ b. test path && b)
          (includes-dedupe keys path
            ∙ any-append (λ x. text_eq x path) (keys_of left) (keys_of right)) in
    elim (Bool-cases (text_eq (manifest_at left path) (manifest_at right path))) [
      | inl same ↦ (
        λ e. true_or_false (sym e ∙ found ∙ rw same refl),
        λ other.
            absurd (other (eq_of_text_eq (manifest_at left path) (manifest_at right path) same)),
      )
      | inr differs ↦ (
        λ e same. true_or_false (sym ((text_eq_iff _ _).1 same) ∙ differs),
        λ other.
            found
            ∙ rw differs (
                in_one (includes (keys_of left) path) (includes (keys_of right) path) (λ l r.
                  other (manifest_at-absent left path l ∙ sym (manifest_at-absent right path r)))),
      )
    ]
  where
    in_one : (a b : Bool) → (a ≡ false → b ≡ false → ⊥) → (a || b) ≡ true
    in_one true b unless = refl
    in_one false true unless = refl
    in_one false false unless = absurd (unless refl refl)

-- Filtering keeps exactly the paths that are not declared.
undeclared_paths_iff :
    (declared paths kept : List Text) (path : Text)
    → undeclared_paths declared paths ≡ ok kept
    → (includes kept path ≡ true)
      ↔ ((includes paths path ≡ true) × (is_declared declared path ≡ ok false))
unfolding undeclared_paths
undeclared_paths_iff declared [] kept path h =
    (λ e. true_or_false (sym e ∙ ap (λ ps. includes ps path) (sym (ok-injective h))), λ q. cc (q.0))
undeclared_paths_iff declared (p ∷ paths) kept path h =
    let (known, ek, h1) = >>=-eq-ok (is_declared declared p) _ h in
    let (rest, er, built) = >>=-eq-ok (undeclared_paths declared paths) _ h1 in
    let made : (if known then rest else p ∷ rest) ≡ kept = ok-injective built in
    subst
      (λ (ks : List Text).
        (includes ks path ≡ true)
        ↔ ((includes (p ∷ paths) path ≡ true) × (is_declared declared path ≡ ok false)))
      made (one known rest ek (undeclared_paths_iff declared paths rest path er))
  where
    one :
        (known : Bool) (rest : List Text)
        → is_declared declared p ≡ ok known
        → ((includes rest path ≡ true)
            ↔ ((includes paths path ≡ true) × (is_declared declared path ≡ ok false)))
        → (includes (if known then rest else p ∷ rest) path ≡ true)
          ↔ ((includes (p ∷ paths) path ≡ true) × (is_declared declared path ≡ ok false))
    one true rest ek (to, from) = (
      λ e. let (among, outside) = to e in (ground (arith, among), outside),
      λ (among, outside). elim (Bool-cases (text_eq p path)) [
        | inl same ↦ true_or_false (
            ok-injective (sym ek ∙ ap (is_declared declared) (eq_of_text_eq p path same) ∙ outside))
        | inr other ↦ from ((rw other at among), outside)
      ],
    )
    one false rest ek (to, from) = (
      λ e. elim (Bool-cases (text_eq p path)) [
        | inl same ↦
            (rw same refl, sym (ap (is_declared declared) (eq_of_text_eq p path same)) ∙ ek)
        | inr other ↦ let (among, outside) = to (rw other at e) in (ground (arith, among), outside)
      ],
      λ (among, outside). elim (Bool-cases (text_eq p path)) [
        | inl same ↦ rw same refl
        | inr other ↦
            let later : includes rest path ≡ true = from ((rw other at among), outside) in
            ground (arith, later)
      ],
    )

NamedBy-map :
    {P Q : Text → Type 0} (path : Text)
    → ((raw : Text) → P raw → Q raw)
    → NamedBy P path
    → NamedBy Q path
NamedBy-map path f (raw, meant, some_text, is) = (raw, f raw meant, some_text, is)

any-member :
    (test : Text → Bool) (xs : List Text) (t : Text)
    → includes xs t ≡ true
    → test t ≡ true
    → any test xs ≡ true
any-member test [] t h k = cc
any-member test (x ∷ xs) t h k = elim (Bool-cases (text_eq x t)) [
  | inl same ↦ rw (ap test (eq_of_text_eq x t same) ∙ k) refl
  | inr other ↦
      let later : any test xs ≡ true = any-member test xs t (rw other at h) k in
      ground (arith, later)
]

any-witness :
    (test : Text → Bool) (xs : List Text)
    → any test xs ≡ true
    → (t : Text) × (includes xs t ≡ true) × (test t ≡ true)
any-witness test [] h = cc
any-witness test (x ∷ xs) h = elim (Bool-cases (test x)) [
  | inl e ↦ (x, ground (arith, text_eq_iff x x), e)
  | inr e ↦ let (t, there, k) = any-witness test xs (rw e at h) in (t, ground (arith, there), k)
]

is_declared_iff :
    (declared : List Text) (path : Text)
    → (is_declared declared path ≡ ok false) ↔ IsOutside declared path
unfolding is_declared
is_declared_iff declared path = (
  λ e.
      let (normal, en, built) = >>=-eq-ok (normalized_path path) _ e in
      (
        normal,
        en,
        λ test among. (
          λ same. true_or_false (
              sym (
                any-member (is_test normal) declared test among
                  (rw ((text_eq_iff normal test).1 same) refl))
              ∙ ok-injective built),
          λ below same. true_or_false (
              sym (
                any-member (is_test normal) declared test among (
                  in_second (text_eq normal test) (starts_with normal (test ++ 47 ∷ []))
                    ((starts_with_iff normal (test ++ 47 ∷ [])).1 (below, same))))
              ∙ ok-injective built),
        ),
      ),
  λ (normal, en, outside).
      ap (λ r. r >>= λ n. ok (any (is_test n) declared)) en
      ∙ ap ok (elim (Bool-cases (any (is_test normal) declared)) [
        | inr none_of ↦ none_of
        | inl one_of ↦
            let (test, among, k) = any-witness (is_test normal) declared one_of in
            let (apart, above) = outside test among in
            elim (either (text_eq normal test) (starts_with normal (test ++ 47 ∷ [])) k) [
              | inl same ↦ absurd (apart (eq_of_text_eq normal test same))
              | inr under ↦
                  let (below, is) = (starts_with_iff normal (test ++ 47 ∷ [])).0 under in
                  absurd (above below is)
            ]
      ]),
)

-- What `completeGreenAttestation` records are exactly the paths that changed outside the tests.
pub production_paths_of-AreProduction :
    (red : Red) (a : Attestation) (i : GreenInput) (next paths : List Text)
    → production_paths_of red a i next ≡ ok paths
    → AreProduction red a.test_paths i next paths
unfolding production_paths_of
production_paths_of-AreProduction red a i next paths h =
    let manifest = changed_manifest_paths red.snapshot.change_manifest i.snapshot.change_manifest in
    let (declared, edeclared, h1) =
      >>=-eq-ok (normalized_paths (unique_strings (a.test_paths ++ next))) _ h in
    let (changed, echanged, h2) =
      >>=-eq-ok (normalized_paths (unique_strings (manifest ++ i.committed_paths))) _ h1 in
    let in_both = λ (raw : Text). any-append (λ x. text_eq x raw) manifest i.committed_paths in
    let is_changed = λ (raw : Text).
      changed_manifest_paths_iff red.snapshot.change_manifest i.snapshot.change_manifest raw in
    (
      declared,
      λ path. normalized_unique-NamedBy (a.test_paths ++ next) declared path edeclared,
      λ path.
          let (to, from) = undeclared_paths_iff declared (sort text_leb changed) paths path h2 in
          let sorted = any-sort text_leb (λ x. text_eq x path) changed in
          let (named, listed) =
            normalized_unique-NamedBy (manifest ++ i.committed_paths) changed path echanged in
          (
            λ e.
                let (among, outside) = to e in
                (
                  NamedBy-map path
                      (λ raw there. elim (either _ _ (sym (in_both raw) ∙ there)) [
                        | inl m ↦ inl ((is_changed raw).0 m)
                        | inr c ↦ inr c
                      ])
                      (named (sym sorted ∙ among)),
                  (is_declared_iff declared path).0 outside,
                ),
            λ (meant, outside). from (
              sorted
                  ∙ listed (
                      NamedBy-map path
                        (λ raw there. in_both raw ∙ elim there [
                          | inl m ↦ rw ((is_changed raw).1 m) refl
                          | inr c ↦ ground (arith, c)
                        ])
                        meant),
              (is_declared_iff declared path).1 outside,
            ),
          ),
    )

pub test_paths_of-AreNext :
    (old : List Text) (i : GreenInput) (next : List Text)
    → test_paths_of (if is_empty i.test_paths then old else i.test_paths) ≡ ok next
    → AreNext old i next
unfolding test_paths_of
test_paths_of-AreNext old i next h path =
    let given = if is_empty i.test_paths then old else i.test_paths in
    let (paths, epaths, built) = >>=-eq-ok (normalized_paths (unique_strings given)) _ h in
    let (to, from) = normalized_unique-NamedBy given paths path epaths in
    let sorted : includes next path ≡ includes paths path =
      ap (λ ps. includes ps path) (sym (ok-injective built))
      ∙ any-sort text_leb (λ x. text_eq x path) paths in
    (λ e. to (sym sorted ∙ e), λ q. sorted ∙ from q)
