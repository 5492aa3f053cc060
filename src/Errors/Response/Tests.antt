-- ===== src/Errors/Response/Tests.antt =====
-- One error of the database.
use stackhouse.Prelude.{◌≤◌, ◌<◌, ◌≡◌}
use stackhouse.Errors.{database}
use stackhouse.Errors.Response.{into_response, to_string, into_response_hides}

into_response_hides_example :
    (500 ≤ (into_response (database "password refused")).status
      → into_response (database "another") ≡ into_response (database "password refused"))
    × ((into_response (database "password refused")).status < 500
        → (into_response (database "password refused")).message
          ≡ to_string (database "password refused"))
into_response_hides_example = into_response_hides (database "password refused") "another"
