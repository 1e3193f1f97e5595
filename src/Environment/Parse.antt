-- ===== src/Environment/Parse.antt =====
-- What the parser of .env files accepts: files of plain assignments, and files one after the other.
use vps_monitor.Common.{
  trim_start, ℕ, suc, ◌+◌, Text, codes, truthy, text_eq, trim, starts_with, index_of, Option, none,
  some, List, [], ◌∷◌, ◌++◌, true, false, if◌then◌else◌, length, take, drop, any, All, ◌==◌, ◌≡◌,
  refl, sym, ap, ◌∙◌, arith, text_eq_iff,
}
use vps_monitor.Common.Sets.{has}
use vps_monitor.Common.Dict.{
  get, set, set_all, keys, IsDict, set-IsDict, get-set, get-set_all, get-not_has,
}
use vps_monitor.Logs.Stream.{split}
use vps_monitor.Logs.Stream.Split.{split-cons}
use vps_monitor.Environment.{
  Env, parse_line, parse_trimmed, assign, assign_line, parse_lines, parse_env_file, unquote,
}

assign_line-IsDict : (o : Option (Text × Text)) (m : Env) → IsDict m → IsDict (assign_line o m)
unfolding assign
assign_line-IsDict none m d = d
assign_line-IsDict (some (k, v)) m d = ground (arith, set-IsDict k v m d)

parse_lines-IsDict : (ls : List Text) (m : Env) → IsDict m → IsDict (parse_lines ls m)
unfolding parse_lines
parse_lines-IsDict [] m d = d
parse_lines-IsDict (l ∷ ls) m d =
    parse_lines-IsDict ls (assign_line (parse_line l) m) (assign_line-IsDict (parse_line l) m d)

-- Whatever the content, the parsed variables have distinct names.
pub parse_env_file-IsDict : (content : Text) → IsDict (parse_env_file content)
unfolding parse_env_file
parse_env_file-IsDict content = parse_lines-IsDict (split false content) [] tt

split-newline : (s t : Text) → split false (s ++ 10 ∷ t) ≡ split false s ++ split false t
unfolding split
split-newline [] t = refl
split-newline (c ∷ s) t =
    let (l, ls, e) = split-cons false s in ground (arith, split-newline s t, e)

parse_lines-append :
    (ls ms : List Text) (env : Env)
    → parse_lines (ls ++ ms) env ≡ parse_lines ms (parse_lines ls env)
unfolding parse_lines
parse_lines-append [] ms env = refl
parse_lines-append (l ∷ ls) ms env = parse_lines-append ls ms (assign_line (parse_line l) env)

-- What a line, if it is an assignment, gives the name.
given : Text → Option (Text × Text) → Option Text
given j o = get j (assign_line o [])

over : Option Text → Option Text → Option Text
over none b = b
over (some v) b = some v

get-assign_line :
    (o : Option (Text × Text)) (j : Text) (m : Env)
    → get j (assign_line o m) ≡ over (get j (assign_line o [])) (get j m)
unfolding assign over get set
get-assign_line none j m = refl
get-assign_line (some (k, v)) j m = ground (arith, get-set k j v m)

over_assoc : (a b c : Option Text) → over a (over b c) ≡ over (over a b) c
unfolding over
over_assoc none b c = refl
over_assoc (some v) b c = refl

-- The lines decide about the names that they assign, and leave the others.
get-parse_lines :
    (ls : List Text) (j : Text) (env : Env)
    → get j (parse_lines ls env) ≡ over (get j (parse_lines ls [])) (get j env)
unfolding parse_lines
get-parse_lines [] j env = unfold over get in refl
get-parse_lines (l ∷ ls) j env =
    get-parse_lines ls j (assign_line (parse_line l) env)
    ∙ ap (over (get j (parse_lines ls []))) (get-assign_line (parse_line l) j env)
    ∙ over_assoc (get j (parse_lines ls [])) (get j (assign_line (parse_line l) [])) (get j env)
    ∙ ap (λ o. over o (get j env)) (sym (get-parse_lines ls j (assign_line (parse_line l) [])))

over-has :
    (j : Text) (m : Env) (b : Option Text)
    → over (get j m) b ≡ (if has j (keys m) then get j m else b)
unfolding over get has keys
over-has j [] b = refl
over-has j ((k, v) ∷ m) b = ground (arith, over-has j m b, text_eq_iff j k, text_eq_iff k j)

-- Of two files one after the other, the second one decides about the names that it assigns, and the
-- first one about the others.
pub parse_env_file-append :
    (first second j : Text)
    → get j (parse_env_file (first ++ 10 ∷ second)) ≡ (
        if has j (keys (parse_env_file second))
        then get j (parse_env_file second)
        else get j (parse_env_file first))
unfolding parse_env_file
parse_env_file-append first second j =
    ap (λ ls. get j (parse_lines ls [])) (split-newline first second)
    ∙ ap (get j) (parse_lines-append (split false first) (split false second) [])
    ∙ get-parse_lines (split false second) j (parse_lines (split false first) [])
    ∙ over-has j (parse_lines (split false second) []) (get j (parse_lines (split false first) []))

-- One line `key=value` for each variable.
abbrev pub print_env : Env → Text
print_env [] = []
print_env ((k, v) ∷ env) = (k ++ 61 ∷ v) ++ 10 ∷ print_env env

-- The name and the value need no quotes: neither has a line end, the name no `=`, it does not start a
-- comment and is not the name of the prototype, no white space stands at the ends, and the value is not
-- in quotes itself.
pub record IsPlain (e : Text × Text) : Type 0 where
  pub named : truthy e.0 ≡ true
  pub no_comment : starts_with (e.0 ++ 61 ∷ e.1) (codes "#") ≡ false
  pub no_prototype : text_eq e.0 (codes "__proto__") ≡ false
  pub no_sign : any (◌==◌ 61) e.0 ≡ false
  pub no_newline : any (◌==◌ 10) (e.0 ++ 61 ∷ e.1) ≡ false
  pub line_trimmed : trim (e.0 ++ 61 ∷ e.1) ≡ e.0 ++ 61 ∷ e.1
  pub key_trimmed : trim e.0 ≡ e.0
  pub value_trimmed : trim e.1 ≡ e.1
  pub unquoted : unquote e.1 ≡ e.1

index_of-append :
    (c : ℕ) (s t : Text) → any (◌==◌ c) s ≡ false → index_of (s ++ c ∷ t) (c ∷ []) ≡ some (length s)
unfolding index_of starts_with
index_of-append c [] t h = ground arith
index_of-append c (d ∷ s) t h = ground (arith, index_of-append c s t)

take-append {ℓ} : {A : Type ℓ} (xs ys : List A) → take (length xs) (xs ++ ys) ≡ xs
take-append [] ys = refl
take-append (x ∷ xs) ys = ap (◌∷◌ x) (take-append xs ys)

drop-append {ℓ} :
    {A : Type ℓ} (xs : List A) (y : A) (ys : List A) → drop (length xs + 1) (xs ++ y ∷ ys) ≡ ys
drop-append [] y ys = refl
drop-append (x ∷ xs) y ys =
    let e : suc (length xs) + 1 ≡ suc (length xs + 1) = omega arith in rw e (drop-append xs y ys)

split_line : (l t : Text) → any (◌==◌ 10) l ≡ false → split false (l ++ 10 ∷ t) ≡ l ∷ split false t
unfolding split
split_line [] t h = refl
split_line (c ∷ l) t h = ground (arith, split_line l t)

parse_trimmed-IsPlain :
    (k v : Text) → IsPlain (k, v) → parse_trimmed (k ++ 61 ∷ v) ≡ some (trim k, unquote (trim v))
unfolding parse_trimmed
parse_trimmed-IsPlain [] v p = absurd (ground (arith, p.named))
parse_trimmed-IsPlain (c ∷ k) v p =
    rw (p.no_comment, index_of-append 61 (c ∷ k) v p.no_sign)
      (ap (λ l. some (trim l, unquote (trim (drop (length (c ∷ k) + 1) (c ∷ k ++ 61 ∷ v)))))
          (take-append (c ∷ k) (61 ∷ v))
        ∙ ap (λ l. some (trim (c ∷ k), unquote (trim l))) (drop-append (c ∷ k) 61 v))

parse_line-IsPlain : (e : Text × Text) → IsPlain e → parse_line (e.0 ++ 61 ∷ e.1) ≡ some (e.0, e.1)
unfolding parse_line
parse_line-IsPlain (k, v) p =
    ap parse_trimmed p.line_trimmed
    ∙ parse_trimmed-IsPlain k v p
    ∙ ap (λ l. some (l, unquote (trim v))) p.key_trimmed
    ∙ ap (λ l. some (k, unquote l)) p.value_trimmed
    ∙ ap (λ l. some (k, l)) p.unquoted

assign-IsPlain : (e : Text × Text) (m : Env) → IsPlain e → assign e.0 e.1 m ≡ set e.0 e.1 m
unfolding assign
assign-IsPlain e m p = rw (p.named, p.no_prototype) refl

parse_lines-IsPlain :
    (e : Text × Text) (ls : List Text) (m : Env)
    → IsPlain e
    → parse_lines ((e.0 ++ 61 ∷ e.1) ∷ ls) m ≡ parse_lines ls (set e.0 e.1 m)
unfolding parse_lines
parse_lines-IsPlain e ls m p =
    ap (λ o. parse_lines ls (assign_line o m)) (parse_line-IsPlain e p)
    ∙ ap (parse_lines ls) (assign-IsPlain e m p)

parse_lines-print_env :
    (env m : Env) → All IsPlain env → parse_lines (split false (print_env env)) m ≡ set_all env m
unfolding set_all
parse_lines-print_env [] m a = unfold split parse_lines parse_line trim trim_start in refl
parse_lines-print_env ((k, v) ∷ env) m a =
    ap (λ ls. parse_lines ls m) (split_line (k ++ 61 ∷ v) (print_env env) a.0.no_newline)
    ∙ parse_lines-IsPlain (k, v) (split false (print_env env)) m a.0
    ∙ parse_lines-print_env env (set k v m) a.1

-- Variables with distinct names that need no quotes, printed with one line each, are parsed to
-- themselves: every name has the value it had.
pub parse_env_file-print_env :
    (env : Env) (j : Text)
    → IsDict env
    → All IsPlain env
    → get j (parse_env_file (print_env env)) ≡ get j env
unfolding parse_env_file
parse_env_file-print_env env j d a =
    ap (get j) (parse_lines-print_env env [] a)
    ∙ get-set_all env j [] d
    ∙ unfold get in ground (arith, get-not_has j env)
