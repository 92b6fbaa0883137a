-- ===== src/Tests/Macro.antt =====
-- pkg/macro at a text with two macros.
use gtest.Common.{◌≡◌, refl, [], ◌∷◌, codes}
use gtest.Macro.{Store, expand}
use gtest.Macro.Expansion.{Pieces, render, substituted, expand-render}
use gtest.Common.Strings.{lacks, has_prefix}

abbrev store : Store
store = (codes "addr", codes "localhost") ∷ (codes "port", codes "80") ∷ []

abbrev pieces : Pieces
pieces = (codes "http://", codes "addr") ∷ (codes ":", codes "port") ∷ []

expand-render_example :
    expand store (render pieces (codes "/")) ≡ substituted store pieces (codes "/")
unfolding lacks has_prefix
expand-render_example =
    expand-render store pieces (codes "/") ((refl, refl), ((refl, refl), tt)) refl
