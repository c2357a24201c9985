-- ===== src/Trace/Examples.antt =====
-- The traceparent of the documentation, from ids with capital letters.
use xkit.Prelude.{◌≡◌, [], codes}
use xkit.Trace.{Bytes, TraceInfo, resolve_traceparent}
use xkit.Trace.Resolved.{resolve-resolve}

abbrev trace : Bytes
trace = codes "0AF7651916cd43dd8448eb211c80319c"

abbrev span : Bytes
span = codes "b7ad6b7169203331"

abbrev info : TraceInfo
info = record {
  trace_id = trace;
  span_id = span;
  request_id = [];
  trace_flags = [];
  traceparent = codes "00-bad";
  tracestate = [];
}

resolve-resolve_example :
    resolve_traceparent (record info { traceparent = resolve_traceparent info })
    ≡ resolve_traceparent info
resolve-resolve_example = resolve-resolve info
