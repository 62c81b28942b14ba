-- ===== src/Reports/Tests.antt =====
-- Runs of week1/teht1.c and teht3.c.
use posix_network_programmin.Prelude.{◌≡◌, refl, [], ◌∷◌, none, codes}
use posix_network_programmin.Cstring.{decimal}
use posix_network_programmin.Posix.{returned, exit_failure}
use posix_network_programmin.Reports.{usec_between, octal, stat_main}

-- A regular file with the permissions 644
octal_mode : octal 33188 ≡ codes "100644"
unfolding octal
octal_mode = refl

next_second :
    usec_between (record { sec = 1; usec = 999990 }) (record { sec = 2; usec = 5 })
    ≡ codes "-999985"
unfolding usec_between decimal
next_second = refl

no_file : stat_main (λ path. none) (codes "./teht3" ∷ codes "x" ∷ []) ≡ ([], returned exit_failure)
unfolding stat_main
no_file = refl
