-- ===== src/Models/Tests.antt =====
-- Searches in error texts.
use apipro.Base.{◌≡◌, refl, ◌↔◌, true, codes}
use apipro.Models.{contains, index_of, index_from, is_dup, error_text, other}
use apipro.Models.Search.{contains_iff, Occurs}

is_dup_mysql : is_dup (other (codes "Error 1062: Duplicate entry")) ≡ true
unfolding is_dup error_text contains index_of index_from
is_dup_mysql = refl

contains_iff_example :
    (contains (codes "a Duplicate entry") (codes "Duplicate") ≡ true)
    ↔ Occurs (codes "Duplicate") (codes "a Duplicate entry")
contains_iff_example = contains_iff (codes "a Duplicate entry") (codes "Duplicate")
