-- ===== src/Tests/Keywords.antt =====
-- Keywords: init/init/init_parser.c.
use android4_4_4_r.Prelude.{Text, ◌≡◌, ◌⊎◌, ◌∷◌, refl, codes}
use android4_4_4_r.Init.Keywords.{Keyword, keyword_info, lookup_keyword}
use android4_4_4_r.Init.Keywords.Lookup.{lookup_keyword_lem}

-- The case of 'p' has no `break`.
pm_is_rm : lookup_keyword (codes "pm") ≡ Keyword.rm
unfolding lookup_keyword
pm_is_rm = refl

lookup_keyword_lem_example :
    (lookup_keyword (codes "setprop") ≡ Keyword.setprop)
    × ((lookup_keyword (codes "pm") ≡ Keyword.unknown)
        ⊎ (((keyword_info (lookup_keyword (codes "pm"))).name ≡ codes "pm")
            ⊎ ((t : Text) × (codes "pm" ≡ b'p' ∷ t)
                × ((keyword_info (lookup_keyword (codes "pm"))).name ≡ b'r' ∷ t))))
unfolding keyword_info
lookup_keyword_lem_example = lookup_keyword_lem Keyword.setprop (codes "pm")
