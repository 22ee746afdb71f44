-- ===== src/Cli/Help/Guest.antt =====
-- Words for the guest are no flags of the program.
use hephaestus.Base.{
  ◌≡◌, refl, ap, not, Option, none, some, if◌then◌else◌, List, [], ◌∷◌, ◌++◌, any, arith,
}
use hephaestus.Base.Text.{Bytes, codes, bytes_eq}
use hephaestus.Cli.Help.{
  Page, top_help, ping_help, run_usage, rootfs_usage, vz_boot_usage, vz_exec_usage, vz_sh_usage,
  pool_usage, vz_warm_usage, vz_snap_usage, is_help, before_dashes, contains_help, page_of,
  nested_help, pool_pages, warm_pages, snap_pages, Subcommand, ping, run, rootfs, vz_boot, vz_exec,
  pool, vz_warm, vz_sh, vz_snapshot, unknown, subcommand, page_if, help_of, help_text,
}

-- The help page does not depend on what stands after `--`.
before_dashes-append :
    (ws more : List Bytes)
    → before_dashes (ws ++ codes "--" ∷ more) ≡ before_dashes (ws ++ codes "--" ∷ [])
unfolding before_dashes bytes_eq
before_dashes-append [] more = refl
before_dashes-append (w ∷ ws) more = ground (arith, before_dashes-append ws more)

contains_help-append :
    (ws more : List Bytes)
    → contains_help (ws ++ codes "--" ∷ more) ≡ contains_help (ws ++ codes "--" ∷ [])
unfolding contains_help
contains_help-append ws more = ap (any is_help) (before_dashes-append ws more)

nested_help-append :
    (w : Bytes) (ws more : List Bytes) (group : Page) (commands : List (Bytes × Page))
    → nested_help (w ∷ ws ++ codes "--" ∷ more) group commands
      ≡ nested_help (w ∷ ws ++ codes "--" ∷ []) group commands
unfolding nested_help
nested_help-append w ws more group commands =
    ap
      (λ b.
        if is_help w then some group else if not b then none else some (page_of w group commands))
      (contains_help-append ws more)

help_of-append :
    (c : Subcommand) (w : Bytes) (ws more : List Bytes)
    → help_of c (w ∷ ws ++ codes "--" ∷ more) ≡ help_of c (w ∷ ws ++ codes "--" ∷ [])
unfolding help_of
help_of-append ping w ws more = ap (λ b. page_if b ping_help) (contains_help-append (w ∷ ws) more)
help_of-append run w ws more = ap (λ b. page_if b run_usage) (contains_help-append (w ∷ ws) more)
help_of-append rootfs w ws more =
    ap (λ b. page_if b rootfs_usage) (contains_help-append (w ∷ ws) more)
help_of-append vz_boot w ws more =
    ap (λ b. page_if b vz_boot_usage) (contains_help-append (w ∷ ws) more)
help_of-append vz_exec w ws more =
    ap (λ b. page_if b vz_exec_usage) (contains_help-append (w ∷ ws) more)
help_of-append vz_sh w ws more =
    ap (λ b. page_if b vz_sh_usage) (contains_help-append (w ∷ ws) more)
help_of-append pool w ws more = nested_help-append w ws more pool_usage pool_pages
help_of-append vz_warm w ws more = nested_help-append w ws more vz_warm_usage warm_pages
help_of-append vz_snapshot w ws more = nested_help-append w ws more vz_snap_usage snap_pages
help_of-append unknown w ws more = refl

-- What stands after `--`, in the third place of a command line or later, never asks for help: the
-- page that is shown, or that none is, is the same for all such words.
pub help_text-append :
    (c w : Bytes) (ws more : List Bytes)
    → help_text (c ∷ w ∷ ws ++ codes "--" ∷ more) ≡ help_text (c ∷ w ∷ ws ++ codes "--" ∷ [])
unfolding help_text
help_text-append c w ws more =
    ap (λ (p : Option Page). if is_help c then some top_help else p)
      (help_of-append (subcommand c) w ws more)
