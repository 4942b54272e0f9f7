-- ===== src/Model/Listing/Tests.antt =====
-- The listings of tables in memory.
use easymail.Base.{
  ◌≡◌, refl, Bool, true, false, ◌+◌, Option, none, some, List, [], ◌∷◌, Bytes, codes, All,
}
use easymail.Base.Int.{pos, negsuc}
use easymail.Model.Memory.{memory}
use easymail.Model.Tables.{Account}
use easymail.Model.Account.{zero_account}
use easymail.Model.Account.Index.{indexed, index}
use easymail.Model.Account.Index.Laws.{index_pages}
use easymail.Model.Listing.Laws.{IsPage}
use easymail.Model.Listing.Memory.{memory_find, memory_find-IsFinder, memory-IsCount}
use easymail.Model.Configure.{Configure, zero_configure}
use easymail.Model.Configure.Listing.{get_configure_by_parent_id}
use easymail.Model.Configure.Listing.Laws.{HasParent, get_configure_parents}

abbrev ann : Account
ann = record zero_account { id = 1; username = codes "ann"; domain_id = 3; active = true }

abbrev bob : Account
bob = record zero_account { id = 2; username = codes "bob"; domain_id = 3; active = true }

abbrev eve : Account
eve = record zero_account { id = 3; username = codes "eve"; domain_id = 3; deleted = true }

abbrev dan : Account
dan = record zero_account { id = 4; username = codes "dan"; domain_id = 4 }

abbrev accounts : List Account
accounts = ann ∷ bob ∷ eve ∷ dan ∷ []

-- The table of accounts has no column `name`.
abbrev no_column : Bytes → Option (Account → Bool)
no_column keyword = none

second_active :
    index true
      (memory (λ p a. a))
      memory_find
      no_column
      (pos 3)
      (pos 0)
      []
      (codes "id")
      (codes "asc")
      (pos 1)
      (pos 5)
      accounts
    ≡ some (2, bob ∷ [])
unfolding index
second_active = refl

index_pages_example :
    IsPage (indexed (pos 3) (pos 0)) 0 1 accounts 2 (ann ∷ [])
    × IsPage (indexed (pos 3) (pos 1)) 0 1 accounts 0 []
    × IsPage (indexed (pos 3) (pos 2)) 0 1 accounts 1 (eve ∷ [])
    × IsPage (indexed (pos 3) (negsuc 0)) 0 1 accounts 3 (ann ∷ [])
    × (2 + (0 + 1) ≡ 3)
unfolding index
index_pages_example =
    index_pages (memory (λ p a. a)) memory_find no_column memory-IsCount memory_find-IsFinder
      (pos 3) [] [] 0 0 accounts 2 0 1 3 (ann ∷ []) [] (eve ∷ []) (ann ∷ []) refl refl refl refl

abbrev top : Configure
top = record zero_configure { id = 1; parent_id = none }

abbrev second : Configure
second = record zero_configure { id = 2; name = codes "dns"; parent_id = some 1 }

abbrev third : Configure
third = record zero_configure { id = 3; name = codes "server"; parent_id = some 2 }

get_configure_parents_example : All HasParent ((third, some second) ∷ [])
unfolding get_configure_by_parent_id
get_configure_parents_example =
    get_configure_parents (memory (λ p c. c)) memory_find (λ k c. false) memory-IsCount
      memory_find-IsFinder 1 [] [] [] 0 4 (top ∷ second ∷ third ∷ []) 1 ((third, some second) ∷ [])
      refl
