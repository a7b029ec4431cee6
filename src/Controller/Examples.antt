-- ===== src/Controller/Examples.antt =====
-- A controller with two consumers.
use nthu_operating_system_er.Base.{◌+◌, ◌≡◌, refl, [], ◌∷◌, ◌++◌, some, length}
use nthu_operating_system_er.Controller.{Controller, cancelled, handler, back}
use nthu_operating_system_er.Controller.Alarms.{handler-misrecords}

abbrev two_consumers : Controller
two_consumers = record {
  consumers = 1 ∷ 2 ∷ [];
  low_threshold = 20;
  high_threshold = 80;
  records = some (0 ∷ 1 ∷ 2 ∷ []);
}

cancel_run : (handler two_consumers 10 3).0 ≡ cancelled 2
unfolding handler back
cancel_run = refl

handler-misrecords_example :
    (2 ≡ length (handler two_consumers 10 3).1.consumers + 1)
    × ((handler two_consumers 10 3).1.records
        ≡ some ((0 ∷ 1 ∷ 2 ∷ []) ++ (length (handler two_consumers 10 3).1.consumers + 2) ∷ []))
handler-misrecords_example =
    handler-misrecords two_consumers 10 3 2 (0 ∷ 1 ∷ 2 ∷ []) refl cancel_run
