-- ===== src/Service/Gen.antt =====
-- internal/service/generator.go: the choice of the generator by the execution mode.
use agreements_generator_api.Prelude.{String, ◌==◌, Option, if◌then◌else◌}
use agreements_generator_api.Effect.{Proc}
use agreements_generator_api.Storage.{GeneratorStorage, InputArchiveStorer}
use agreements_generator_api.Cache.{Cacher}
use agreements_generator_api.Publisher.{Publisher}
use agreements_generator_api.Service.{World, Generator, call}
use agreements_generator_api.Service.Grpc
use agreements_generator_api.Service.Queue

module _ {S : Type 0} (storage : GeneratorStorage S) (storer : Option (InputArchiveStorer S))
    (publisher : Publisher S) (cacher : Cacher S) (new_uuid : Proc S String) where
  -- `NewGRPCGen`
  abbrev pub new_grpc_gen : Generator (World S)
  new_grpc_gen = record {
    bulk_generate = Grpc.bulk_generate storage cacher new_uuid;
    check_job_status = λ id. call (Grpc.check_job_status storage cacher id);
    get_archive = λ id. call (Grpc.get_archive storage cacher id);
    get_archive_info = λ id. call (Grpc.get_archive_info storage cacher id);
  }

  -- `NewQueueGen`
  abbrev pub new_queue_gen : Generator (World S)
  new_queue_gen = record {
    bulk_generate = Queue.bulk_generate storage cacher storer publisher new_uuid;
    check_job_status = λ id. call (Queue.check_job_status storage cacher id);
    get_archive = λ id. call (Queue.get_archive storage cacher id);
    get_archive_info = λ id. call (Queue.get_archive_info storage cacher id);
  }

  -- `NewGen`
  unfoldable pub new_gen : String → Generator (World S)
  new_gen exec_mode =
      if exec_mode == "grpc"
      then new_grpc_gen
      else if exec_mode == "queue"
      then new_queue_gen
      else new_grpc_gen
