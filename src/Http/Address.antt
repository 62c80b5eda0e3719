-- ===== src/Http/Address.antt =====
-- `net.SplitHostPort` of Go's library, as `enrollHandler` uses it: the host alone.
use certhold.Base.{
  ℕ, Text, Bool, true, ◌||◌, Option, none, some, [], ◌∷◌, any, nat_eq, if◌then◌else◌,
}

abbrev pub has : ℕ → Text → Bool
has c s = any (λ x. nat_eq x c) s

abbrev put : ℕ → Option Text → Option Text
put c none = none
put c (some s) = some (c ∷ s)

-- What stands before the last occurrence of the byte.
unfoldable pub before_last : ℕ → Text → Option Text
before_last c [] = none
before_last c (x ∷ xs) =
    let rest = before_last c xs in
    if has c xs then put x rest else if nat_eq x c then some [] else none

-- What stands between the opening bracket, which was read, and the closing one at the very end.
unfoldable pub in_brackets : Text → Option Text
in_brackets [] = none
in_brackets (x ∷ xs) =
    let rest = put x (in_brackets xs) in
    if nat_eq x b']' then (if any (λ _. true) xs then none else some []) else rest

-- What stands after the last occurrence of the byte, in a text that has it.
unfoldable pub after_last : ℕ → Text → Text
after_last c [] = []
after_last c (x ∷ xs) = let rest = after_last c xs in if has c xs then rest else xs

abbrev bracketed : Text → Bool
bracketed s = has b'[' s || has b']' s

-- The host of `host:port` or `[host]:port`, from what stands before the last colon and after it;
-- `none` is an error.
abbrev host_of : Text → Option Text → Option Text
host_of port none = none
host_of port (some []) = if bracketed port then none else some []
host_of port (some (c ∷ cs)) =
    if nat_eq c b'['
    then (if has b'[' cs || bracketed port then none else in_brackets cs)
    else if has b':' (c ∷ cs) || bracketed (c ∷ cs) || bracketed port
    then none
    else some (c ∷ cs)

unfoldable pub split_host_port : Text → Option Text
unfolding before_last after_last in_brackets
split_host_port s = host_of (after_last b':' s) (before_last b':' s)
