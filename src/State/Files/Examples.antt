-- ===== src/State/Files/Examples.antt =====
-- A write that succeeds and one whose `rename` fails.
use conduitvpn.Base.{
  ℕ, ◌≡◌, refl, Bool, true, false, [], ◌∷◌, codes, str_eq, lookup, insert, delete,
}
use conduitvpn.State.Files.{whole, Files, Syscall, rename, Job, write_json}
use conduitvpn.State.Files.Atomic.{Promise, write_json-Promise}

abbrev new_route : Job ℕ
new_route = record { path = codes "route.json"; tmp = codes ".conduitvpn-1.tmp"; v = 2 }

abbrev old_files : Files ℕ
old_files = (codes "route.json", whole 1) ∷ []

abbrev rename_fails : Syscall → Bool
rename_fails rename = true
rename_fails _ = false

write_json_done :
    (write_json new_route (λ c. false) old_files).last ≡ (codes "route.json", whole 2) ∷ []
unfolding write_json insert delete lookup str_eq
write_json_done = refl

write_json_refused : (write_json new_route rename_fails old_files).last ≡ old_files
unfolding write_json insert delete lookup str_eq
write_json_refused = refl

names_differ : str_eq new_route.tmp new_route.path ≡ false
unfolding str_eq
names_differ = refl

write_json-Promise_example :
    Promise new_route old_files names_differ rename_fails
      (write_json new_route rename_fails old_files)
write_json-Promise_example = write_json-Promise new_route old_files names_differ rename_fails
