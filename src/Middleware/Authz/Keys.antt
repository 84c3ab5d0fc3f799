-- ===== src/Middleware/Authz/Keys.antt =====
-- internal/middleware/authz/required_filters.go: the order in which a map of required filters is read.
use stac_proxy.Common.{
  ◌≡◌, ◌≢◌, ap, String, Bool, List, [], ◌∷◌, str_ltb, str_ltb_asym, All, some, ◌>>=◌,
}
use stac_proxy.Common.Shuffles.{
  Shuffled, Apart, AllApart, sort_by-Shuffled, str_ltb_trans, str_ltb_total,
}
use stac_proxy.Stac.Cql2.{Json}
use stac_proxy.Middleware.Authz.Filters.{Builders, clauses, conjunction, required_filters_to_cql2}

abbrev key_less : String × Json → String × Json → Bool
key_less a b = str_ltb a.0 b.0

-- No key stands twice.
abbrev pub DistinctKeys : List (String × Json) → Type 0
DistinctKeys [] = Unit {0}
DistinctKeys ((k, v) ∷ rf) = All (λ e. k ≢ e.0) rf × DistinctKeys rf

All-Apart_key :
    (k : String) (v : Json) (rf : List (String × Json))
    → All (λ e. k ≢ e.0) rf
    → All (Apart key_less (k, v)) rf
All-Apart_key k v [] h = tt
All-Apart_key k v ((j, w) ∷ rf) h = (str_ltb_total k j h.0, All-Apart_key k v rf h.1)

DistinctKeys-AllApart : (rf : List (String × Json)) → DistinctKeys rf → AllApart key_less rf
DistinctKeys-AllApart [] h = tt
DistinctKeys-AllApart ((k, v) ∷ rf) h = (All-Apart_key k v rf h.0, DistinctKeys-AllApart rf h.1)

-- In whatever order a map's entries are read, the expression that the required filters stand for, or
-- the error, is the same.
pub required_filters_to_cql2-Shuffled :
    (k : Builders) (rf rg : List (String × Json))
    → Shuffled rf rg
    → DistinctKeys rf
    → required_filters_to_cql2 k rf ≡ required_filters_to_cql2 k rg
unfolding required_filters_to_cql2
required_filters_to_cql2-Shuffled k rf rg moved distinct =
    ap (λ sorted. clauses k sorted >>= λ es. some (conjunction k es))
      (sort_by-Shuffled key_less (λ a b. str_ltb_asym a.0 b.0) (λ a b c. str_ltb_trans a.0 b.0 c.0)
        moved (DistinctKeys-AllApart rf distinct))
