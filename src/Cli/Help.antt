-- ===== src/Cli/Help.antt =====
-- `help_text`: which help page a command line asks for. Each text is a constructor.
pub mod Guest
use Prim.Native.String.{String}
use hephaestus.Base.{
  Bool, true, false, not, ◌||◌, ◌&&◌, Option, none, some, if◌then◌else◌, List, [], ◌∷◌, any,
}
use hephaestus.Base.Text.{Bytes, codes, bytes_eq}

pub data Page : Type 0 where
  top_help ping_help run_usage rootfs_usage vz_boot_usage vz_exec_usage vz_sh_usage : Page
  pool_usage pool_init_help pool_run_help pool_stats_help pool_destroy_help : Page
  vz_warm_usage vz_warm_save_help vz_warm_run_help : Page
  vz_snap_usage vz_snap_save_help vz_snap_restore_help : Page

abbrev pub is_word : String → Bytes → Bool
is_word s w = bytes_eq w (codes s)

unfoldable pub is_help : Bytes → Bool
is_help w = is_word "-h" w || is_word "--help" w

-- `take_while(|arg| arg != "--")`.
unfoldable pub before_dashes : List Bytes → List Bytes
before_dashes [] = []
before_dashes (w ∷ ws) = if is_word "--" w then [] else w ∷ before_dashes ws

unfoldable pub contains_help : List Bytes → Bool
unfolding before_dashes is_help
contains_help ws = any is_help (before_dashes ws)

-- `find_map` over the names of a group, and `.or(Some(group_help))`.
unfoldable pub page_of : Bytes → Page → List (Bytes × Page) → Page
page_of command group [] = group
page_of command group ((name, page) ∷ rest) =
    if bytes_eq name command then page else page_of command group rest

-- With no word after the group's name there is no help to find.
unfoldable pub nested_help : List Bytes → Page → List (Bytes × Page) → Option Page
unfolding is_help contains_help page_of
nested_help [] group commands = none
nested_help (w ∷ ws) group commands =
    if is_help w
    then some group
    else if not (contains_help ws)
    then none
    else some (page_of w group commands)

abbrev pub pool_pages : List (Bytes × Page)
pool_pages =
    (codes "init", pool_init_help)
    ∷ (codes "run", pool_run_help)
    ∷ (codes "stats", pool_stats_help)
    ∷ (codes "destroy", pool_destroy_help)
    ∷ []

abbrev pub warm_pages : List (Bytes × Page)
warm_pages = (codes "save", vz_warm_save_help) ∷ (codes "run", vz_warm_run_help) ∷ []

abbrev pub snap_pages : List (Bytes × Page)
snap_pages = (codes "save", vz_snap_save_help) ∷ (codes "restore", vz_snap_restore_help) ∷ []

-- The subcommands, and `unknown` for any other word.
pub data Subcommand : Type 0 where
  ping run rootfs vz_boot vz_exec pool vz_warm vz_sh vz_snapshot unknown : Subcommand

unfoldable pub subcommand : Bytes → Subcommand
subcommand w =
    if is_word "ping" w
    then ping
    else if is_word "run" w
    then run
    else if is_word "rootfs" w
    then rootfs
    else if is_word "vz-boot" w
    then vz_boot
    else if is_word "vz-exec" w
    then vz_exec
    else if is_word "vz-sh" w
    then vz_sh
    else if is_word "pool" w
    then pool
    else if is_word "vz-warm" w
    then vz_warm
    else if is_word "vz-snapshot" w
    then vz_snapshot
    else unknown

-- A page that is shown where a help flag stands before `--`.
abbrev pub page_if : Bool → Page → Option Page
page_if b page = if b then some page else none

unfoldable pub help_of : Subcommand → List Bytes → Option Page
unfolding contains_help nested_help
help_of ping ws = page_if (contains_help ws) ping_help
help_of run ws = page_if (contains_help ws) run_usage
help_of rootfs ws = page_if (contains_help ws) rootfs_usage
help_of vz_boot ws = page_if (contains_help ws) vz_boot_usage
help_of vz_exec ws = page_if (contains_help ws) vz_exec_usage
help_of vz_sh ws = page_if (contains_help ws) vz_sh_usage
help_of pool ws = nested_help ws pool_usage pool_pages
help_of vz_warm ws = nested_help ws vz_warm_usage warm_pages
help_of vz_snapshot ws = nested_help ws vz_snap_usage snap_pages
help_of unknown ws = none

unfoldable pub help_text : List Bytes → Option Page
unfolding is_help subcommand help_of
help_text [] = none
help_text (w ∷ ws) = if is_help w then some top_help else help_of (subcommand w) ws
