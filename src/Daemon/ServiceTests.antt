-- ===== src/Daemon/ServiceTests.antt =====
-- A life of the daemon of src/clipmenud.c with a store of two clips.
use clipmenu.Prelude.{refl, true, false, none, some, List, [], ◌∷◌, arith, length}
use clipmenu.Text.{codes}
use clipmenu.Machine.{fail, pass}
use clipmenu.Store.Clips.Tests.{new_text, two_file, two_dir}
use clipmenu.Daemon.Selections.{clipboard}
use clipmenu.Daemon.{xfixes_selection_notify, property_notify}
use clipmenu.Daemon.Handlers.{written}
use clipmenu.Daemon.Tests.{cfg, daemon}
use clipmenu.Daemon.Startup.{Round, Start, Settings, main}
use clipmenu.Daemon.Service.{Lives, Kept, main-Lives}

abbrev settings : Settings
settings = record {
  config = cfg;
  active = λ sel. elim sel [ clipboard ↦ true | _ ↦ false ];
  oneshot = false;
}

-- For XInternAtom() stands the length of a name.
abbrev start : Start
start = record {
  argc = 1;
  status = written;
  content_dir_fd = some 4;
  snip_fd = some 3;
  display = true;
  signals = true;
  xfixes = true;
  intern_atom = length;
}

-- The first answer to a conversion is stored though the trim's unlink fails; then another process has
-- put the two clips back, and a window takes the clipboard.
abbrev rounds : List Round
rounds =
    record {
      files = none;
      fates = pass ∷ pass ∷ pass ∷ pass ∷ pass ∷ pass ∷ pass ∷ pass ∷ pass ∷ pass ∷ fail 13 ∷ [];
      wakes =
          record {
            selected = true;
            signal = none;
            x_ready = true;
            arrived = property_notify 23 true (some new_text) 7 ∷ [];
          }
          ∷ [];
    }
    ∷ record {
      files = some (two_file, two_dir);
      fates = [];
      wakes =
          record {
            selected = true;
            signal = some (some 12, written);
            x_ready = true;
            arrived = xfixes_selection_notify (some (codes "a title")) 9 ∷ [];
          }
          ∷ [];
    }
    ∷ []

main-Lives_example : Lives (Kept false) (main settings start rounds daemon)
main-Lives_example =
    main-Lives settings start rounds daemon
      (record {
        sound = record {
          used = omega arith;
          inside = omega arith;
          bounded = omega arith;
          begun = omega arith;
        };
        unlocked = refl;
      })
      (
        tt,
        (
          record {
            used = omega arith;
            inside = omega arith;
            bounded = omega arith;
            begun = omega arith;
          },
          tt,
        ),
      )
