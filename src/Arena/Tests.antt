-- ===== src/Arena/Tests.antt =====
-- src/arena.c on two strings, a struct and a large array.
use taskjuggler_lsp.Base.{ℕ, ◌≡◌, refl, List, [], ◌∷◌, Each}
use taskjuggler_lsp.Arena.{
  Region, arena_new, grown_cap, arena_alloc, arena_strndup, Request, serve_all,
}
use taskjuggler_lsp.Arena.Regions.{AllApart, Inside, WithinCaps, serve_all-AllApart}

abbrev requests : List Request
requests =
    Request.strndup 4
    ∷ Request.strndup 2
    ∷ Request.alloc 40
    ∷ Request.alloc 70000
    ∷ Request.strndup 1
    ∷ []

abbrev region : ℕ → ℕ → ℕ → Region
region b o n = record { block = b; off = o; size = n }

served :
    (serve_all arena_new requests).1
    ≡ region 0 0 5 ∷ region 0 5 3 ∷ region 0 8 40 ∷ region 1 0 70000 ∷ region 2 0 2 ∷ []
unfolding arena_alloc arena_strndup grown_cap
served = refl

serve_all-AllApart_example :
    AllApart (serve_all arena_new requests).1
    × Each (Inside (serve_all arena_new requests).0) (serve_all arena_new requests).1
    × WithinCaps (serve_all arena_new requests).0
serve_all-AllApart_example = serve_all-AllApart arena_new requests tt
