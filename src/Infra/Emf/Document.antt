-- ===== src/Infra/Emf/Document.antt =====
-- What the collector of metrics relies on: every name in the header is a member of the document.
use report_insight.Base.{
  ℕ, ◌≡◌, refl, sym, ap, ◌∙◌, true, false, Bool-cases, Option, none, some, inl, inr, List, [], ◌∷◌,
  map, Text, All, All-imp, Any, ℤ, arith,
}
use report_insight.Base.Dict.{text_eq, text_eq_sound, text_eq_refl, get, has}
use report_insight.Base.Dict.Entries.{IsFresh, IsDistinct, text_eq-sym}
use report_insight.Infra.Emf.{
  EmfMetrics, Value, Directive, header, label, number, merge, keys, Metric, unit_of, aws, env,
  count, labels, numbers, write, is_env_alone, dim_sets, tokens_input, tokens_output, emit_tokens,
}
use report_insight.Infra.Emf.Merged.{
  or_else, get-fresh, get-has, merge-IsDistinct, get-merge, merge-IsFresh,
}

abbrev pub map_label : Option Text → Option Value
map_label none = none
map_label (some v) = some (label v)

get-labels : (k : Text) (d : List (Text × Text)) → get k (labels d) ≡ map_label (get k d)
unfolding get
get-labels k [] = refl
get-labels k ((j, v) ∷ d) = elim (Bool-cases (text_eq j k)) [
  | inl e ↦ rw e refl
  | inr e ↦ rw e (get-labels k d)
]

labels-IsFresh : (k : Text) (d : List (Text × Text)) → IsFresh k d → IsFresh k (labels d)
labels-IsFresh k [] h = tt
labels-IsFresh k ((j, v) ∷ d) h = (h.0, labels-IsFresh k d h.1)

labels-IsDistinct : (d : List (Text × Text)) → IsDistinct d → IsDistinct (labels d)
labels-IsDistinct [] h = tt
labels-IsDistinct ((j, v) ∷ d) h = (labels-IsFresh j d h.0, labels-IsDistinct d h.1)

has-later :
    (j k : Text) (v : Text) (d : List (Text × Text)) → has k d ≡ true → has k ((j, v) ∷ d) ≡ true
unfolding has
has-later j k v d h = ground arith

keys-has : (d : List (Text × Text)) → All (λ k. has k d ≡ true) (keys d)
unfolding has
keys-has [] = tt
keys-has ((j, v) ∷ d) = (
  rw (text_eq_refl j) refl,
  All-imp (λ k. has k d ≡ true) (λ k. has k ((j, v) ∷ d) ≡ true) (keys d) (λ k. has-later j k v d)
      (keys-has d),
)

is_env_alone_lem : (ks : List Text) → is_env_alone ks ≡ true → ks ≡ env ∷ []
is_env_alone_lem [] h = absurd (ground arith)
is_env_alone_lem (k ∷ []) h = ap (λ z. z ∷ []) (text_eq_sound k env h)
is_env_alone_lem (k ∷ j ∷ ks) h = absurd (ground arith)

-- The names that a dimension must not have.
abbrev pub IsPlain : List (Text × Text) → Type 0
IsPlain d = IsFresh aws d × IsFresh tokens_input d × IsFresh tokens_output d

merge-IsPlain : (d e : List (Text × Text)) → IsPlain d → IsPlain e → IsPlain (merge d e)
merge-IsPlain d e (a, b, c) (a', b', c') = (
  merge-IsFresh aws d e a a',
  merge-IsFresh tokens_input d e b b',
  merge-IsFresh tokens_output d e c c',
)

abbrev counts : ℤ → ℤ → List Metric
counts i o = (tokens_input, (i, count)) ∷ (tokens_output, (o, count)) ∷ []

-- A dimension is another text than a name that no dimension has.
has-apart :
    (k n : Text) (d : List (Text × Text)) → IsFresh n d → has k d ≡ true → text_eq n k ≡ false
unfolding has
has-apart k n [] f h = absurd (ground arith)
has-apart k n ((j, v) ∷ d) f h = elim (Bool-cases (text_eq j k)) [
  | inl e ↦ text_eq-sym k n (sym (ap (λ z. text_eq z n) (text_eq_sound j k e)) ∙ f.0)
  | inr e ↦ has-apart k n d f.1 (ground arith)
]

-- Each name's set of dimensions, and the set of `Env` alone.
dim_sets-has : (d : List (Text × Text)) → All (All (λ k. has k d ≡ true)) (dim_sets d)
dim_sets-has d = elim (Bool-cases (has env d)) [
  | inr e ↦ rw e (keys-has d, tt)
  | inl e ↦ elim (Bool-cases (is_env_alone (keys d))) [
    | inl f ↦ rw (e, f) (keys-has d, tt)
    | inr f ↦ rw (e, f) (keys-has d, ((e, tt), tt))
  ]
]

dim_sets-env : (d : List (Text × Text)) → has env d ≡ true → Any (λ s. s ≡ env ∷ []) (dim_sets d)
dim_sets-env d e = elim (Bool-cases (is_env_alone (keys d))) [
  | inl f ↦ rw (e, f) (inl (is_env_alone_lem (keys d) f))
  | inr f ↦ rw (e, f) (inr (inl refl))
]

module _ (h : Value) (i o : ℤ) (dims : List (Text × Text)) (distinct : IsDistinct dims) where
  abbrev document : List (Text × Value)
  document = merge (merge ((aws, h) ∷ []) (labels dims)) (numbers (counts i o))

  counts-IsDistinct : IsDistinct (numbers (counts i o))
  unfolding text_eq
  counts-IsDistinct = ((refl, tt), (tt, tt))

  get-document :
      (k : Text)
      → get k document
        ≡ or_else
            (get k (numbers (counts i o)))
            (or_else (map_label (get k dims)) (get k ((aws, h) ∷ [])))
  get-document k =
      get-merge k (merge ((aws, h) ∷ []) (labels dims)) (numbers (counts i o)) counts-IsDistinct
      ∙ ap (or_else (get k (numbers (counts i o)))) (
          get-merge k ((aws, h) ∷ []) (labels dims) (labels-IsDistinct dims distinct)
          ∙ ap (λ z. or_else z (get k ((aws, h) ∷ []))) (get-labels k dims))

  document-aws : IsFresh aws dims → get aws document ≡ some h
  unfolding get text_eq
  document-aws f = get-document aws ∙ rw (get-fresh aws dims f) refl

  document-input : get tokens_input document ≡ some (number i)
  unfolding get text_eq
  document-input = get-document tokens_input

  document-output : get tokens_output document ≡ some (number o)
  unfolding get text_eq
  document-output = get-document tokens_output

  document-label :
      (k : Text)
      → IsPlain dims
      → has k dims ≡ true
      → (v : Text) × (get k dims ≡ some v) × (get k document ≡ some (label v))
  unfolding get
  document-label k f there =
      let found = get-has k dims there in
      let a = has-apart k tokens_input dims f.1 there in
      let b = has-apart k tokens_output dims f.2 there in
      (found.0, found.1, get-document k ∙ rw (a, b, found.1) refl)

-- The line that `emit_tokens` writes, when neither the base dimensions nor those of the call have a reserved
-- name (`_aws`, `tokens_input` and `tokens_output`), and one of them is `Env`. Its header lists the two
-- metrics in order, and they are members with the two numbers. Every dimension that the header lists is a
-- member too, with the value of the call or else of the base. One of the listed sets is `Env` alone.
pub emit_tokens_stream :
    (self : EmfMetrics) (now : ℕ) (input output : ℤ) (dimensions : List (Text × Text))
    → IsDistinct self.dims
    → IsPlain self.dims
    → IsPlain dimensions
    → has env (merge self.dims dimensions) ≡ true
    → let line = emit_tokens self now input output dimensions in
      (h : Directive) × (get aws line ≡ some (header now h))
      × (h.metrics ≡ (tokens_input, count) ∷ (tokens_output, count) ∷ [])
      × (get tokens_input line ≡ some (number input))
      × (get tokens_output line ≡ some (number output))
      × All
          (All (λ k.
            (v : Text) × (get k (merge self.dims dimensions) ≡ some v)
            × (get k line ≡ some (label v))))
          h.dimensions
      × Any (λ s. s ≡ env ∷ []) h.dimensions
unfolding emit_tokens write
emit_tokens_stream self now input output dimensions distinct base given there =
    let dims = merge self.dims dimensions in
    let d : IsDistinct dims = merge-IsDistinct self.dims dimensions distinct in
    let plain : IsPlain dims = merge-IsPlain self.dims dimensions base given in
    let h : Directive = record {
      namespace = self.namespace;
      dimensions = dim_sets dims;
      metrics = map unit_of (counts input output);
    } in
    (
      h,
      document-aws (header now h) input output dims d plain.0,
      refl,
      document-input (header now h) input output dims d,
      document-output (header now h) input output dims d,
      All-imp (All (λ k. has k dims ≡ true))
          (All (λ k.
            (v : Text) × (get k dims ≡ some v)
            × (get k (document (header now h) input output dims d) ≡ some (label v))))
          (dim_sets dims)
          (λ ks.
            All-imp (λ k. has k dims ≡ true)
              (λ k.
                (v : Text) × (get k dims ≡ some v)
                × (get k (document (header now h) input output dims d) ≡ some (label v)))
              ks (λ k there'. document-label (header now h) input output dims d k plain there'))
          (dim_sets-has dims),
      dim_sets-env dims there,
    )
