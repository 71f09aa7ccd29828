-- ===== src/Runner/Reports.antt =====
-- tools/runner/reporter.go, and LogPrefixFmt of tools/runner/queues.go: the numbers of
-- the tests of a queue, and the widths of the prefixes of their log lines.
pub mod Room
use grpc_test_infra.Base.{ℕ, ◌+◌, ◌-◌, String, List, [], ◌∷◌, length, ltb, if◌then◌else◌}
use grpc_test_infra.Base.Int.{ℤ, pos, negsuc}
use grpc_test_infra.Base.Text.{cat_all, decimal}
use grpc_test_infra.Base.Strings.{byte_length}
use grpc_test_infra.Base.Dict.{Dict}
use grpc_test_infra.Api.{LoadTest}

-- `fmt.Sprint(len(configs) - 1)`: a queue without tests has the last index -1.
unfoldable pub last_index : List LoadTest → String
unfolding decimal
last_index [] = "-1"
last_index (config ∷ configs) = decimal (length configs)

pub record Widths : Type 0 where
  pub queue_width : ℕ
  pub index_width : ℕ

abbrev pub wider : ℕ → ℕ → ℕ
wider new width = if ltb width new then new else width

-- The loop of `LogPrefixFmt`.
unfoldable pub widths_from : Dict (List LoadTest) → Widths → Widths
unfolding byte_length last_index
widths_from [] w = w
widths_from ((queue, configs) ∷ queues) w = widths_from queues (record {
  queue_width = wider (byte_length queue) w.queue_width;
  index_width = wider (byte_length (last_index configs)) w.index_width;
})

unfoldable pub widths : Dict (List LoadTest) → Widths
unfolding widths_from
widths queues = widths_from queues (record { queue_width = 0; index_width = 0 })

unfoldable pub log_prefix_fmt : Dict (List LoadTest) → String
unfolding widths decimal
log_prefix_fmt queues =
    let w = widths queues in
    cat_all ("[%-" ∷ decimal w.queue_width ∷ "s %" ∷ decimal w.index_width ∷ "d] " ∷ [])

-- The fields of `TestSuiteReporter`.
pub record TestSuiteReporter : Type 0 where
  pub queue_name : String
  pub log_prefix_fmt : String
  pub test_case_count : ℕ

abbrev pub new_test_suite_reporter : String → String → TestSuiteReporter
new_test_suite_reporter queue_name log_prefix_fmt = record {
  queue_name = queue_name;
  log_prefix_fmt = log_prefix_fmt;
  test_case_count = 0;
}

-- The index of a `TestCaseReporter`, and the suite's reporter after it was made. The prefix of its log
-- lines is `fmt.Sprintf` of the suite's format, the name of the queue and the index.
unfoldable pub new_test_case_reporter : TestSuiteReporter → ℕ × TestSuiteReporter
new_test_case_reporter r = (r.test_case_count, record r { test_case_count = r.test_case_count + 1 })

-- The indices of the tests of a queue: `Run` makes a reporter for each, in their order.
unfoldable pub number_tests : TestSuiteReporter → List LoadTest → List (ℕ × LoadTest)
unfolding new_test_case_reporter
number_tests r [] = []
number_tests r (config ∷ configs) =
    let made = new_test_case_reporter r in (made.0, config) ∷ number_tests made.1 configs
