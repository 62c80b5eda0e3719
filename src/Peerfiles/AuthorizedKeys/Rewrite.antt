-- ===== src/Peerfiles/AuthorizedKeys/Rewrite.antt =====
-- `RewritePrincipals` and `rewriteLineOptions`.
use certhold.Base.{
  Text, text, Bool, true, false, List, [], ◌∷◌, ◌++◌, Option, some, any, Lacks, ◌≡◌, refl, arith,
  ap, sym, subst, ◌∙◌, if◌then◌else◌, join,
}
use mathlib.Core.List.{append_assoc}
use certhold.Errors.{Result, ok, err}
use certhold.Peerfiles.Lines.{lines, unlines, newline}
use certhold.Peerfiles.Principals.{dedup_principals}
use certhold.Peerfiles.AuthorizedKeys.{
  ParsedKey, is_ours, trim_end, rewrite_principals, rewrite_loop, rewrite_line_options,
  principals_option, authorized_keys_line, onto, with_line, or_unmatched, spliced, splice_first,
  cut, cut_prefix, opening, quote,
}

cut-quote : (s rest : Text) → Lacks b'"' s → cut quote (s ++ (quote ++ rest)) ≡ some (s, rest)
unfolding cut cut_prefix
cut-quote [] rest h = refl
cut-quote (c ∷ cs) rest h = ground (arith, cut-quote cs rest)

cut-opening :
    (rest : Text)
    → cut opening (text "cert-authority," ++ (opening ++ rest))
      ≡ some (text "cert-authority,", rest)
unfolding cut cut_prefix
cut-opening rest = refl

splice-line :
    (old new rest : Text)
    → Lacks b'"' old
    → rewrite_line_options
        (text "cert-authority," ++ ((opening ++ (old ++ quote)) ++ rest))
        (opening ++ (new ++ quote))
      ≡ ok (text "cert-authority," ++ ((opening ++ (new ++ quote)) ++ rest))
unfolding rewrite_line_options
splice-line old new rest h =
    let ca = text "cert-authority," in
    let field = opening ++ (new ++ quote) in
    ap (λ t. splice_first field (cut opening (ca ++ (opening ++ t)))) (append_assoc old quote rest)
    ∙ ap (splice_first field) (cut-opening (old ++ (quote ++ rest)))
    ∙ ap (spliced ca field) (cut-quote old rest h)

-- The `principals="…"` field of a trust line is replaced and nothing else: rewriting the line that
-- was built for some principals gives the line built for the new ones, when no old principal, as they
-- stand joined in the line, holds a quote.
pub rewrite_built_line :
    (ca_pub : Text) (olds news : List Text)
    → Lacks b'"' (join b',' (dedup_principals olds))
    → rewrite_line_options (authorized_keys_line ca_pub olds) (principals_option news)
      ≡ ok (authorized_keys_line ca_pub news)
unfolding authorized_keys_line principals_option
rewrite_built_line ca_pub olds news h =
    splice-line (join b',' (dedup_principals olds)) (join b',' (dedup_principals news))
      (text " " ++ trim_end newline ca_pub) h

module _ (parse : Text → Option ParsedKey) (ca new : Text) where
  abbrev RewrittenLine : Bool → Text → Text → Type 0
  RewrittenLine true l m = rewrite_line_options (trim_end 13 l) new ≡ ok m
  RewrittenLine false l m = m ≡ l

  -- Line by line: a line of ours with its principals rewritten, any other line as it was.
  abbrev pub Rewritten : List Text → List Text → Type 0
  Rewritten [] [] = Unit
  Rewritten (l ∷ ls) [] = ⊥
  Rewritten [] (m ∷ ms) = ⊥
  Rewritten (l ∷ ls) (m ∷ ms) = RewrittenLine (is_ours parse (ca ∷ []) l) l m × Rewritten ls ms

  onto-Rewritten :
      (l m : Text) (ls : List Text) (r : Result (List Text)) (out : List Text)
      → RewrittenLine (is_ours parse (ca ∷ []) l) l m
      → ((ms : List Text) → r ≡ ok ms → Rewritten ls ms)
      → onto parse m r ≡ ok out
      → Rewritten (l ∷ ls) out
  onto-Rewritten l m ls (ok ms) out line rest h =
      subst (Rewritten (l ∷ ls)) (let e : (m ∷ ms) ≡ out = cc h in e) (line, rest ms refl)
  onto-Rewritten l m ls (err e) out line rest h = absurd (cc h)

  step-Rewritten :
      (b : Bool) (l : Text) (ls : List Text) (lr : Result Text) (r : Result (List Text))
      (out : List Text)
      → is_ours parse (ca ∷ []) l ≡ b
      → rewrite_line_options (trim_end 13 l) new ≡ lr
      → ((ms : List Text) → r ≡ ok ms → Rewritten ls ms)
      → (if b then with_line parse lr r else onto parse l r) ≡ ok out
      → Rewritten (l ∷ ls) out
  step-Rewritten true l ls (ok m) r out same line rest h =
      onto-Rewritten l m ls r out (subst (λ b. RewrittenLine b l m) (sym same) line) rest h
  step-Rewritten true l ls (err e) r out same line rest h = absurd (cc h)
  step-Rewritten false l ls lr r out same line rest h =
      onto-Rewritten l l ls r out (subst (λ b. RewrittenLine b l l) (sym same) refl) rest h

  rewrite_loop-Rewritten :
      (ls out : List Text) → rewrite_loop parse ca new ls ≡ ok out → Rewritten ls out
  unfolding rewrite_loop
  rewrite_loop-Rewritten [] out h = subst (Rewritten []) (let e : [] ≡ out = cc h in e) tt
  rewrite_loop-Rewritten (l ∷ ls) out h =
      step-Rewritten (is_ours parse (ca ∷ []) l) l ls (rewrite_line_options (trim_end 13 l) new)
        (rewrite_loop parse ca new ls) out refl refl (rewrite_loop-Rewritten ls) h

or_unmatched_eq_ok :
    (parse : Text → Option ParsedKey) (found : Bool) (r : Result (List Text)) (out : Text)
    → or_unmatched parse found r ≡ ok out
    → (found ≡ true) × (ms : List Text) × (r ≡ ok ms) × (unlines ms ≡ out)
or_unmatched_eq_ok parse true (ok ms) out h = (refl, ms, refl, cc h)
or_unmatched_eq_ok parse false (ok ms) out h = absurd (cc h)
or_unmatched_eq_ok parse true (err e) out h = absurd (cc h)
or_unmatched_eq_ok parse false (err e) out h = absurd (cc h)

-- A rewrite that succeeds finds a line of the instance, and writes as many lines as there were: at a
-- line of the instance that line with the principals replaced, elsewhere the line as it was.
pub rewrite_principals-lines :
    (parse : Text → Option ParsedKey) (existing ca : Text) (principals : List Text) (out : Text)
    → rewrite_principals parse existing ca principals ≡ ok out
    → (any (is_ours parse (ca ∷ [])) (lines existing) ≡ true)
      × (ms : List Text) × (out ≡ unlines ms)
      × Rewritten parse ca (principals_option principals) (lines existing) ms
unfolding rewrite_principals
rewrite_principals-lines parse existing ca principals out h =
    let (found, ms, e, u) =
      or_unmatched_eq_ok parse (any (is_ours parse (ca ∷ [])) (lines existing))
        (rewrite_loop parse ca (principals_option principals) (lines existing)) out h in
    (
      found,
      ms,
      sym u,
      rewrite_loop-Rewritten parse ca (principals_option principals) (lines existing) ms e,
    )
